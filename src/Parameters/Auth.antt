-- ===== src/Parameters/Auth.antt =====
-- `LmAuthParameters` of loudmouth/lm-data-objects.c. A pointer to text may be `NULL`.
use loudmouth.Base.{ℕ, ◌+◌, ◌%◌, Option, none, some, ◌==◌, if◌then◌else◌, Text}

-- `struct LmAuthParameters`
pub record AuthParameters : Type 0 where
  pub username : Option Text
  pub password : Option Text
  pub resource : Option Text
  pub ref_count : ℕ

-- `lm_auth_parameters_new`
unfoldable pub new : Option Text → Option Text → Option Text → AuthParameters
new username password resource = record {
  username = username;
  password = password;
  resource = resource;
  ref_count = 1;
}

-- `lm_auth_parameters_get_username`, `lm_auth_parameters_get_password` and
-- `lm_auth_parameters_get_resource`.
unfoldable pub get_username : AuthParameters → Option Text
get_username params = params.username

unfoldable pub get_password : AuthParameters → Option Text
get_password params = params.password

unfoldable pub get_resource : AuthParameters → Option Text
get_resource params = params.resource

-- `lm_auth_parameters_ref`
unfoldable pub ref : AuthParameters → AuthParameters
ref params = record params { ref_count = (params.ref_count + 1) % 4294967296 }

-- `lm_auth_parameters_unref`: `none` once it is freed.
unfoldable pub unref : AuthParameters → Option AuthParameters
unref params =
    let ref_count = (params.ref_count + 4294967295) % 4294967296 in
    if ref_count == 0 then none else some (record params { ref_count = ref_count })
