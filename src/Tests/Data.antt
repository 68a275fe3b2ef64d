-- ===== src/Tests/Data.antt =====
-- A cloud with one VM, one NIC and a few rules, in which every call succeeds; and a `retry` that
-- tries again at once.
use azure_shell.Prelude.{ℕ, zero, suc, refl, Bool, true, false, none, some, [], ◌∷◌, ⊤}
use azure_shell.Text.{Text, text}
use azure_shell.Errors.{Error, ErrorKind, Result, ok, err}
use azure_shell.Cloud.{Azure, History}
use azure_shell.Cloud.Objects.{
  windows, linux, standard_lrs, SecurityRule, Nsg, static, IpConfiguration, Nic, Vm, Subnet, Vnet,
}
use azure_shell.Effects.{M}
use azure_shell.Effects.Retry.{Retrying, after_attempt}
use azure_shell.SecurityGroups.Rules.{Constants}

abbrev pub attempts : (A : Type 0) → ℕ → (Error → Bool) → M A → M A
attempts A zero p m h = m h
attempts A (suc zero) p m h = m h
attempts A (suc (suc n)) p m h = after_attempt p (attempts A (suc n) p m) (m h)

abbrev pub retrying : Retrying
retrying = record { retry = attempts; retry_last = λ A p m h. refl; retry_more = λ A n p m h. refl }

abbrev pub constants : Constants
constants = record {
  internet = text "Internet";
  asterisk = text "*";
  allow = text "Allow";
  deny = text "Deny";
}

-- names of a resource group, of a VM and of its security group
abbrev pub group : Text
group = b'g' ∷ b'1' ∷ []

abbrev pub vm_name : Text
vm_name = b'v' ∷ b'm' ∷ []

abbrev pub rule_at : Text → ℕ → SecurityRule
rule_at name priority = record {
  access = text "Allow";
  direction = text "Inbound";
  source_address_prefix = text "*";
  source_port_range = text "*";
  name = name;
  destination_address_prefix = text "10.0.0.4";
  destination_port_range = text "22";
  priority = priority;
  protocol = text "tcp";
}

abbrev pub nsg : Nsg
nsg = record { name = vm_name; security_rules = rule_at vm_name 1000 ∷ rule_at group 1010 ∷ [] }

abbrev pub configuration : IpConfiguration
configuration = record {
  private_ip_address = text "10.0.0.4";
  private_ip_allocation_method = static;
  public_ip_address = some (text "ips/p1");
  subnet = text "subnets/s1";
}

abbrev pub nic : Nic
nic = record {
  id = text "nics/vm";
  name = vm_name;
  resource_guid = text "guid";
  primary = true;
  mac_address = text "mac";
  ip_configurations = configuration ∷ [];
  network_security_group = some (text "NSG_vm");
}

abbrev pub bare_nic : Nic
bare_nic = record {
  id = text "nics/vm";
  name = vm_name;
  resource_guid = text "guid";
  primary = true;
  mac_address = text "mac";
  ip_configurations = [];
  network_security_group = none;
}

abbrev pub vm : Vm
vm = record {
  name = vm_name;
  vm_id = text "id";
  provisioning_state = text "Succeeded";
  network_interfaces = record { id = vm_name; primary = true } ∷ [];
  os_disk = record {
    name = text "disk";
    vhd = none;
    managed_disk = true;
    os_type = text "linux";
    storage_account_type = standard_lrs;
  };
  image_reference = record {
    publisher = text "Canonical";
    offer = text "Ubuntu";
    sku = text "16";
    id = text "images/i";
  };
  vm_size = text "A1";
}

abbrev pub subnet : Subnet
subnet = record {
  name = b'g' ∷ b'1' ∷ b'_' ∷ [];
  address_prefix = text "10.0.0.0/24";
  network_security_group = some (text "nsgs/n1");
  route_table = none;
  ip_configurations = none;
}

abbrev pub vnet : Vnet
vnet = record {
  name = text "vnet";
  address_prefixes = text "10.0.0.0/16" ∷ [];
  tags = some ((text "network_type", text "sandbox") ∷ []);
  subnets = subnet ∷ [];
}

-- every call succeeds, but for calls without an answer, which `done` answers
abbrev pub cloud_with : Nic → (History → Result ⊤) → Azure
cloud_with one done = record {
  security_rules = λ h. ok nsg.security_rules;
  nsgs = λ h. ok (nsg ∷ []);
  nsg = λ h. ok nsg;
  nic = λ h. ok one;
  vm = λ h. ok vm;
  vnets = λ h. ok (vnet ∷ []);
  checked_out = λ h. ok (text "10.0.0.5" ∷ []);
  subnet = λ h. ok subnet;
  public_ip = λ h.
      ok (record {
        ip_address = some (text "20.0.0.1");
        public_ip_allocation_method = text "Static";
      });
  image = λ h. ok (record { id = text "image"; os_type = linux });
  image_versions = λ h. ok (text "1" ∷ text "2" ∷ []);
  marketplace_image = λ h. ok (record { operating_system = windows; plan = none });
  storage_accounts = λ h. ok (text "store" ∷ []);
  account_keys = λ h. ok (text "secret" ∷ []);
  copy_status = λ h. ok (text "success");
  blob_is_there = λ h. ok false;
  file = λ h. ok (text "key");
  route_table = λ h. ok (text "routes");
  url_is_valid = λ h. ok true;
  regions = λ h. ok (text "westus" ∷ []);
  location = λ h. ok (text "westus");
  vm_sizes = λ h. ok (text "A1" ∷ []);
  is_cancelled = λ h. false;
  done = done;
}

abbrev pub cloud : Azure
cloud = cloud_with nic (λ h. ok tt)

-- what Azure answers where a resource is not there
abbrev pub absent : Error
absent = record {
  kind = ErrorKind.cloud_error;
  message = text "gone";
  formatted = text "CloudError: gone";
  reason = text "Not Found";
}

abbrev pub forbidden : Error
forbidden = record {
  kind = ErrorKind.cloud_error;
  message = text "no";
  formatted = text "CloudError: no";
  reason = text "Forbidden";
}

abbrev pub empty_cloud : Azure
empty_cloud = cloud_with nic (λ h. err absent)

abbrev pub parts_of : Text → Text × Text
parts_of uri = (text "account.blob.core.windows.net", text "/vhds/disk")
