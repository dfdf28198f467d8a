-- ===== src/Cli/Table.antt =====
-- PrintTable of internal/application/cli/framework/execution.go, over the foreign tab writer.
use cloud_secrets.Prelude.{String, List, [], ◌∷◌, ◌++◌, Text, codes}
use cloud_secrets.Prelude.Exec.{Exec, pure, ◌>>◌, context}

-- `fmt.Fprint` to the writer, and its flush
pub record TabWriter (W : Type 0) : Type 0 where
  pub write : Text → Exec W (Unit {0})
  pub flush : Exec W (Unit {0})

abbrev tab : Text
tab = 9 ∷ []

abbrev newline : Text
newline = 10 ∷ []

module _ {W : Type 0} (out : TabWriter W) where
  -- The cells of one line, each with a tab behind it.
  unfoldable pub print_cells : String → List Text → Exec W (Unit {0})
  print_cells failure [] = pure tt
  print_cells failure (cell ∷ cells) =
      context failure (out.write (cell ++ tab)) >> print_cells failure cells

  unfoldable pub print_rows : List (List Text) → Exec W (Unit {0})
  unfolding print_cells
  print_rows [] = pure tt
  print_rows (row ∷ rows) =
      print_cells "could not print cell" row
      >> context "could not print row delimiter" (out.write newline)
      >> print_rows rows

  unfoldable pub print_table : List Text → List (List Text) → Exec W (Unit {0})
  unfolding print_rows
  print_table headers rows =
      print_cells "could not print header" headers
      >> context "could not print delimiter" (out.write newline)
      >> print_rows rows
      >> out.flush

-- The headers of `ls`
abbrev pub list_headers : List Text
list_headers =
    codes "ID"
    ∷ codes "Name"
    ∷ codes "External Path"
    ∷ codes "Version"
    ∷ codes "External Version"
    ∷ []
