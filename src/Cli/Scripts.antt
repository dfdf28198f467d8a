-- ===== src/Cli/Scripts.antt =====
-- internal/application/cli/app.go and cli/framework: the commands as scripts of the foreign console
-- library, which prints and parses.
use cloud_secrets.Prelude.{Bool, true, not, List, [], ◌∷◌, map, Result, ok, err, panic, Text, codes}
use cloud_secrets.Prelude.Exec.{Exec, pure, ◌>>=◌, context}
use cloud_secrets.Engine.Docker.{DockerApi, docker_client}
use cloud_secrets.Cli.{run_list, run_sync}
use cloud_secrets.Cli.Table.{TabWriter, print_table, list_headers}
use cloud_secrets.Cli.Vault.{Terminal, run_vault}

-- framework.Argument and framework.Option
pub record Argument : Type 0 where
  pub name : Text
  pub description : Text

pub record CommandOption : Type 0 where
  pub name : Text

-- framework.Definition
pub record Definition : Type 0 where
  pub name : Text
  pub description : Text
  pub arguments : List Argument
  pub options : List CommandOption

-- framework.Command; the execution is the terminal of the script.
pub record Command (W : Type 0) : Type 0 where
  pub definition : Definition
  pub run : Terminal W → Exec W (Unit {0})

pub data ExitCode : Type 0 where
  exit_success exit_error : ExitCode

-- go_console.Argument, Option and Script, as far as they are filled in
pub record ScriptArgument : Type 0 where
  pub name : Text
  pub optional : Bool
  pub description : Text

pub record Script (W : Type 0) : Type 0 where
  pub name : Text
  pub description : Text
  pub runner : Bool → Terminal W → Exec W ExitCode
  pub arguments : List ScriptArgument
  pub options : List Text

abbrev exit_code_of : Result (Unit {0}) → Result ExitCode
exit_code_of (ok _) = ok exit_success
exit_code_of (err e) = ok exit_error
exit_code_of panic = panic

-- `commandRunner`: an error is printed. Whether the terminal is interactive is the option
-- `no-interaction` of the script.
unfoldable pub command_runner : {W : Type 0} → Command W → Bool → Terminal W → Exec W ExitCode
command_runner command no_interaction terminal w =
    let (r, w') = command.run (record terminal { interactive = not no_interaction }) w in
    (exit_code_of r, w')

abbrev script_argument : Argument → ScriptArgument
script_argument argument = record {
  name = argument.name;
  optional = true;
  description = argument.description;
}

abbrev option_name : CommandOption → Text
option_name o = o.name

abbrev pub script_of : {W : Type 0} → Command W → Script W
script_of command = record {
  name = command.definition.name;
  description = command.definition.description;
  runner = command_runner command;
  arguments = map script_argument command.definition.arguments;
  options = map option_name command.definition.options;
}

unfoldable pub create_scripts : {W : Type 0} → List (Command W) → List (Script W)
unfolding command_runner
create_scripts [] = []
create_scripts (command ∷ commands) = script_of command ∷ create_scripts commands

abbrev list_definition : Definition
list_definition = record {
  name = codes "ls";
  description = codes "List secrets in Swarm with mapping at external secrets";
  arguments = [];
  options = [];
}

abbrev sync_definition : Definition
sync_definition = record {
  name = codes "sync";
  description = codes "Run synchronization";
  arguments = [];
  options = [];
}

abbrev vault_definition : Definition
vault_definition = record {
  name = codes "vault";
  description = codes "Prepare Swarm and Vault to working with cloud-secrets";
  arguments =
      record {
        name = codes "auth-method";
        description = codes "Authentication method for requests to Vault";
      }
      ∷ record { name = codes "vault-addr"; description = codes "Vault HTTP API endpoint" }
      ∷ record { name = codes "vault-mount-path"; description = codes "Vault KV v2 mount path" }
      ∷ [];
  options = [];
}

-- `createCommands`
unfoldable pub create_commands : {W : Type 0} → DockerApi W → TabWriter W → List (Command W)
unfolding run_sync run_list run_vault print_table
create_commands docker out =
    record { definition = sync_definition; run = λ terminal. run_sync docker }
    ∷ record {
      definition = list_definition;
      run = λ terminal. run_list (docker_client docker) >>= λ table.
          context "print table" (print_table out list_headers table);
    }
    ∷ record {
      definition = vault_definition;
      run = λ terminal. run_vault (docker_client docker) terminal;
    }
    ∷ []

-- NewApplication and Run: the commands over a new Docker client, as scripts
unfoldable pub new_scripts :
    {W : Type 0} → Exec W (DockerApi W) → TabWriter W → Exec W (List (Script W))
unfolding create_commands create_scripts
new_scripts new_docker out =
    context "[main] failed to create docker client" new_docker >>= λ docker.
    pure (create_scripts (create_commands docker out))
