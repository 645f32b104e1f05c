-- ===== src/Parameters/Connecting.antt =====
-- `LmConnectParameters` of loudmouth/lm-data-objects.c. A pointer to text may be `NULL`.
use loudmouth.Base.{ℕ, ◌+◌, ◌%◌, Option, none, some, ◌==◌, if◌then◌else◌, Text}

-- `struct LmConnectParameters`
pub record ConnectParameters : Type 0 where
  pub domain : Option Text
  pub host : Option Text
  pub port : ℕ
  pub ref_count : ℕ

-- `lm_connect_parameters_new`
unfoldable pub new : Option Text → Option Text → ℕ → ConnectParameters
new domain host port = record { domain = domain; host = host; port = port; ref_count = 1 }

-- `lm_connect_parameters_get_domain`, `lm_connect_parameters_get_host` and
-- `lm_connect_parameters_get_port`.
unfoldable pub get_domain : ConnectParameters → Option Text
get_domain params = params.domain

unfoldable pub get_host : ConnectParameters → Option Text
get_host params = params.host

unfoldable pub get_port : ConnectParameters → ℕ
get_port params = params.port

-- `lm_connect_parameters_ref`
unfoldable pub ref : ConnectParameters → ConnectParameters
ref params = record params { ref_count = (params.ref_count + 1) % 4294967296 }

-- `lm_connect_parameters_unref`: `none` once it is freed.
unfoldable pub unref : ConnectParameters → Option ConnectParameters
unref params =
    let ref_count = (params.ref_count + 4294967295) % 4294967296 in
    if ref_count == 0 then none else some (record params { ref_count = ref_count })
