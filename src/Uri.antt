-- ===== src/Uri.antt =====
-- introspector/aws/uri.py: the uri of a resource, from the service, the resource's name and keyword
-- arguments. Python's text of a number, a list or an object in an f-string is the parameter `repr`.
mod Args
mod Services
mod Arn
pub mod Inherit
unfoldable pub use Args.*
unfoldable pub use Services.*
unfoldable pub use Arn.*
