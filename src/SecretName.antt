-- ===== src/SecretName.antt =====
-- internal/secretname: the folder delimiter, and the names of secret versions.
pub mod Bounds
use cloud_secrets.Prelude.{ℕ, ◌+◌, ◌++◌, ◌||◌, length, ltb}
use cloud_secrets.Prelude.{if◌then◌else◌, Text, codes, ◌==◌, Result, ok, err, message}
use cloud_secrets.Prelude.Exec.{Exec, pure}
use cloud_secrets.Strings.{replace_all}

abbrev pub max_length : ℕ
max_length = 64

abbrev pub folder_delimiter_dash : Text
folder_delimiter_dash = codes "-"

abbrev pub folder_delimiter_underscore : Text
folder_delimiter_underscore = codes "_"

unfoldable pub validate : Text → Result (Unit {0})
validate d =
    if d == folder_delimiter_dash || d == folder_delimiter_underscore
    then ok tt
    else err (message "invalid folder delimiter")

-- `new_uuid` is `uuid.NewString()`, drawn only where the name would be too long.
unfoldable pub generate : {W : Type 0} → Exec W Text → Text → Text → Text → Exec W Text
unfolding replace_all
generate new_uuid path folder_delimiter version_id =
    if ltb max_length (length path + length version_id + 1)
    then new_uuid
    else pure (replace_all b'/' folder_delimiter path ++ codes "-" ++ version_id)
