-- ===== src/Blobs.antt =====
-- `StorageService.parse_blob_url` of
-- package/cloudshell/cp/azure/domain/services/storage_service.py, and
-- package/cloudshell/cp/azure/models/azure_blob_url.py. `urlparse` is of Python's library: it gives
-- the `netloc` and the `path` of an address.
use azure_shell.Prelude.{ℕ, List, [], ◌∷◌, ◌==◌, if◌then◌else◌}
use azure_shell.Text.{Text, text}
use azure_shell.Text.Edit.{split}
use azure_shell.Errors.{ErrorKind, exception, Result, ok, err, ◌>>=◌}

pub record AzureBlobUrlModel : Type 0 where
  pub storage_name : Text
  pub container_name : Text
  pub blob_name : Text

-- `s.split(c, 1)[0]`
unfoldable pub before : ℕ → Text → Text
before c [] = []
before c (x ∷ xs) = if x == c then [] else x ∷ before c xs

-- `l[-2]` and `l[-1]`
unfoldable pub last_two : List Text → Result (Text × Text)
last_two [] = err (exception ErrorKind.index_error (text "list index out of range"))
last_two (x ∷ []) = err (exception ErrorKind.index_error (text "list index out of range"))
last_two (x ∷ y ∷ []) = ok (x, y)
last_two (x ∷ y ∷ z ∷ rest) = last_two (y ∷ z ∷ rest)

unfoldable pub parse_blob_url : (Text → Text × Text) → Text → Result AzureBlobUrlModel
parse_blob_url urlparse blob_url = last_two (split b'/' (urlparse blob_url).1) >>= λ names.
    ok (record {
      storage_name = before b'.' (urlparse blob_url).0;
      container_name = names.0;
      blob_name = names.1;
    })
