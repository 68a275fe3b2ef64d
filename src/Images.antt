-- ===== src/Images.antt =====
-- package/cloudshell/cp/azure/domain/services/image_data.py: the image from which a VM is made.
use azure_shell.Prelude.{Option}
use azure_shell.Text.{Text, text}
use azure_shell.Errors.{ErrorKind, exception}
use azure_shell.Cloud.{Azure, get_image}
use azure_shell.Cloud.Objects.{OperatingSystem, Plan}
use azure_shell.Effects.{M, ◌>>=◌, pure, raise, call}
use azure_shell.Effects.Retry.{Retrying}
use azure_shell.VirtualMachines.{get_virtual_machine_image}

-- the class of the deployment model, with its attributes of the image:
-- `DeployAzureVMFromCustomImageResourceModel` with the name and the resource group,
-- `DeployAzureVMResourceModel` with publisher, offer, SKU and version, or another
pub data DeploymentImage : Type 0 where
  from_custom_image : Text → Text → DeploymentImage
  from_marketplace : Text → Text → Text → Text → DeploymentImage
  other_model : DeploymentImage

-- models/image_data.py
pub data ImageDataModel : Type 0 where
  custom_image : Text → OperatingSystem → ImageDataModel
  marketplace_image : OperatingSystem → Option Plan → ImageDataModel

unfoldable pub os_type : ImageDataModel → OperatingSystem
os_type (custom_image id os) = os
os_type (marketplace_image os plan) = os

-- `get_image_data_model`, with `_get_custom_image_data` and `_get_marketplace_image_data`
unfoldable pub get_image_data_model : Retrying → Azure → DeploymentImage → M ImageDataModel
get_image_data_model r z (from_custom_image image_name image_resource_group) = do
  image ← call (get_image image_resource_group image_name) z.image
  pure (custom_image image.id image.os_type)
get_image_data_model r z (from_marketplace publisher offer sku version) = do
  image ← get_virtual_machine_image r z publisher offer sku
  pure (marketplace_image image.operating_system image.plan)
get_image_data_model r z other_model =
    raise (exception ErrorKind.plain_exception (text "Unsupported deployment_model type"))
