-- ===== src/Models.antt =====
-- package/cloudshell/cp/azure/models: the data that the parsers make and the services consume.
use azure_shell.Prelude.{Option}
use azure_shell.Text.{Text}

-- models/rule_data.py
pub record RuleData : Type 0 where
  pub access : Text
  pub protocol : Text
  pub port : Option Text
  pub from_port : Option Text
  pub to_port : Option Text
  pub name : Option Text

-- models/port_data.py
pub record PortData : Type 0 where
  pub from_port : Text
  pub to_port : Text
  pub protocol : Text
  pub destination : Option Text
  pub source : Text
  pub name : Option Text
