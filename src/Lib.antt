-- ===== src/Lib.antt =====
-- A model of the core of the Azure shell, a CloudShell cloud provider for Microsoft Azure, and what
-- holds of it.
--
-- The shell prepares a sandbox in Azure, deploys virtual machines into it, opens ports by security
-- rules, and takes everything down again. Its operations are written in terms of services; the
-- services call the Azure libraries and the CloudShell server. Paths below are those of the
-- repository, under package/cloudshell/cp/azure where they begin with `…`.
--
-- The files:
-- - Prelude, Text: lists, tests, and Python's strings as lists of character codes, with `split`,
--   `strip`, `replace`, `lower` and decimal numbers.
-- - Errors, Models: exceptions as values with their class, and the data classes of …/models.
-- - Names: …/domain/services/name_provider.py, and the storage account name of
--   …/domain/vm_management/operations/PrepareSandboxInfraOperation.py.
-- - Ports: …/common/parsers/rules_attribute_parser.py and
--   …/common/parsers/port_group_attribute_parser.py, with the regular expressions in Ports/Match and
--   an independent description of what is accepted in Ports/Spec.
-- - Locks: …/domain/services/lock_service.py as a machine of threads, one step for each line.
-- - Priorities: the generator of rule priorities in …/domain/services/security_group.py.
-- - Waiter: …/domain/services/task_waiter.py.
-- - Cloud, Effects: the calls of Azure and of the CloudShell server, and code that makes calls, as a
--   function of the calls so far. What Azure answers is a parameter, the record `Azure`, of which
--   nothing is assumed but where a theorem says so. Effects/Emits has the rules by which a theorem
--   says which calls some code can make, and Effects/Retry the decorator `retry` with
--   …/common/helpers/retrying_helpers.py; Effects/Bounded has rules for how many calls are made.
-- - Cancellation: …/domain/services/command_cancellation.py inside code that makes calls.
-- - SecurityGroups: …/domain/services/security_group.py. It takes priorities from Priorities.
-- - Tags: …/domain/services/tags.py.
-- - Networks: …/domain/services/network_service.py, what reads networks and what deletes, in
--   Networks/Creation what creates; and …/common/helpers/ip_allocation_helper.py.
-- - Ips: …/domain/services/ip_service.py.
-- - Blobs: the parser of blob addresses of …/domain/services/storage_service.py.
-- - Deletion: …/domain/vm_management/operations/delete_operation.py, the clean-up of a sandbox and
--   the deletion of a VM.
-- - Sandbox: the security rules of a sandbox's subnets, of
--   …/domain/vm_management/operations/PrepareSandboxInfraOperation.py.
-- - VmRules: the security group of a VM, of …/domain/vm_management/operations/deploy_operation.py.
--   Sandbox and VmRules create rules by SecurityGroups.
-- - NicRequests: which subnets a new VM is connected to, of the same file.
-- - VmNames: the computer name and the size of a VM, of the same file.
-- - Addresses: …/domain/networking_management/operations/ip_operation.py.
-- - Rollback: what …/domain/vm_management/operations/deploy_operation.py deletes when a deployment
--   raises.
-- - VirtualMachines: …/domain/services/virtual_machine_service.py.
-- - Caches, StorageAccounts, Copies: …/domain/services/storage_service.py, its caches of keys and
--   services, its accounts, threads that copy one image, as a step relation, and in Copies/Waiting one
--   copy with its wait.
-- - Credentials: …/domain/services/vm_credentials_service.py and …/domain/services/key_pair.py.
-- - Scripts, Images: …/domain/services/vm_extension.py and …/domain/services/image_data.py.
-- - Deployment: the rest of …/domain/vm_management/operations/deploy_operation.py. The preparation
--   is in Deployment.antt, what is created in Deployment/Steps, and `_deploy_vm_generic` in
--   Deployment/Flow; it uses NicRequests, VmNames, VmRules, VmDetails, Rollback and the services
--   above. What code knows of addresses when it raises is a part of its value (`Tracked`).
-- - Details: the NICs of …/domain/common/vm_details_provider.py.
-- - OpenPorts, AccessKey: app_ports_operation.py and access_key_operation.py in
--   …/domain/vm_management/operations; the first reads what Ports parses.
-- - Routes: …/domain/networking_management/operations/add_route_operation.py, and in Routes/Requests how
--   …/common/parsers/azure_model_parser.py reads a request for route tables.
-- - Preparation: the rest of
--   …/domain/vm_management/operations/PrepareSandboxInfraOperation.py, which uses Sandbox.
-- - AppSecurity, Power, Refresh, Autoload: set_app_security_groups.py, power_operation.py,
--   refresh_ip_operation.py and autoload_operation.py in …/domain/vm_management/operations.
--   AppSecurity/Requests is what makes the request of AppSecurity.
-- - Clients: …/common/azure_clients.py and …/common/singletons.py, as a step relation of threads.
-- - DataHolders: …/common/deploy_data_holder.py.
-- - Connections: …/domain/services/parsers and …/models/network_actions_models.py, the network actions
--   that NicRequests is given.
-- - VmDetails: …/domain/vm_management/operations/vm_details_operation.py, and the rest of what Details
--   models.
-- - SecurityReport, Commands: …/azure_shell.py. Commands composes the operations of the other parts as
--   `AzureShell` does; Commands/Endpoints is what it reads of the app, and Commands/Deploy deploys, with
--   `Deploy` of drivers/azure_shell/driver.py.
-- - ModelParser: …/common/parsers/azure_model_parser.py, which makes what Deployment is given.
-- - Tests: the theorems at concrete inputs.
--
-- Bounds and fuel: the waits of Waiter run on fuel. The theorems give an amount that is enough: one
-- round more than the round that ends the wait, or one more than the timeout where the clock moves
-- on in each round. The wait of Copies/Waiting takes fuel as well, and one more than the number of
-- looks that find the copy under way is enough. The number printer of Text/Decimal has the number
-- itself as fuel. Numbers are unbounded, as in Python; the priority generator does without numbers
-- below 0, as its file says.
--
-- Parameters: the library `retrying` (`Retrying`, with the documented behaviour of its attempts as
-- laws), the answers of Azure and of the CloudShell server (`Azure`), the constants of the Azure
-- library (`Constants`), random identifiers and passwords, the clock, `urlparse`, `jsonpickle`,
-- what appending to the message of a `CloudError` does, and what `netaddr`, `re`, `int` and the
-- order of a dictionary decide, each where it is used.
--
-- Not modelled: messages to the logger, the waits between attempts, what a call of Azure does to
-- the state of Azure, the regions and tags of what is created, the task of a sandbox's preparation
-- as a thread of its own (it runs where it is started), that the clean-up of a stale subnet also
-- forgets its security group in the network as it was read, which the next subnets of a request are
-- looked up in, the lock around the subnets of a route table, the converter of resource contexts
-- and the handlers of clients, which nothing uses, reading and writing JSON, cryptography, and the
-- methods of the driver that only pass their arguments on.
pub mod Prelude
pub mod Text
pub mod Errors
pub mod Names
pub mod Models
pub mod DataHolders
pub mod Ports
pub mod Locks
pub mod Priorities
pub mod Waiter
pub mod Cloud
pub mod Effects
pub mod Cancellation
pub mod SecurityGroups
pub mod Tags
pub mod Networks
pub mod Ips
pub mod Blobs
pub mod Deletion
pub mod Rollback
pub mod Routes
pub mod NicRequests
pub mod Connections
pub mod Addresses
pub mod VmNames
pub mod StorageAccounts
pub mod Deployment
pub mod Details
pub mod VmDetails
pub mod OpenPorts
pub mod SecurityReport
pub mod Scripts
pub mod Images
pub mod Caches
pub mod Clients
pub mod Credentials
pub mod AccessKey
pub mod Copies
pub mod ModelParser
pub mod AppSecurity
pub mod Autoload
pub mod Power
pub mod Refresh
pub mod VirtualMachines
pub mod VmRules
pub mod Sandbox
pub mod Preparation
pub mod Commands
pub mod Tests
