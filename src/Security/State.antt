-- ===== src/Security/State.antt =====
-- The static state of server/proxy/server/security_features.c, its set-up and its teardown.
use net_port.Base.{
  ℕ, ◌+◌, ◌^◌, Bool, true, false, List, [], ◌∷◌, Str, length, ltb, leb, if◌then◌else◌,
}

-- `uint32_t` and `size_t` wrap here.
abbrev pub u32 : ℕ
u32 = 2 ^ 32

abbrev pub size_limit : ℕ
size_limit = 2 ^ 64

-- `sizeof(rate_limit_entry_t)` under the LP64 layout.
abbrev pub entry_bytes : ℕ
entry_bytes = 104

-- `sizeof(entry->key) - 1`.
abbrev pub key_max : ℕ
key_max = 63

-- `rate_limit_entry_t`.
pub record Entry : Type 0 where
  pub key : Str
  pub request_count : ℕ
  pub window_start : ℕ
  pub last_request : ℕ
  pub penalty_count : ℕ
  pub penalty_until : ℕ

-- `rate_limit_config_t`.
pub record RateConfig : Type 0 where
  pub window_seconds : ℕ
  pub max_requests : ℕ
  pub penalty_seconds : ℕ
  pub max_penalties : ℕ

-- The globals. `entries` are the `g_rate_limit_table_size` rows in use; `allocated` says that
-- `g_rate_limit_table` is not NULL, and then `capacity` rows belong to it.
pub record Security : Type 0 where
  pub config : RateConfig
  pub allocated : Bool
  pub entries : List Entry
  pub capacity : ℕ
  pub whitelist : List Str
  pub blacklist : List Str

abbrev pub default_config : RateConfig
default_config = record {
  window_seconds = 60;
  max_requests = 100;
  penalty_seconds = 300;
  max_penalties = 5;
}

-- The globals before any call.
abbrev pub initial : Security
initial = record {
  config = default_config;
  allocated = false;
  entries = [];
  capacity = 0;
  whitelist = [];
  blacklist = [];
}

-- `security_features_init`: the state and the return code's success. `calloc_ok` is what the
-- allocation of 1000 rows answers.
unfoldable pub security_features_init : Bool → Security → Security × Bool
security_features_init calloc_ok s =
    if calloc_ok
    then (record s { allocated = true; capacity = 1000; entries = [] }, true)
    else (record s { allocated = false; capacity = 1000 }, false)

-- `security_features_cleanup`.
unfoldable pub security_features_cleanup : Security → Security
security_features_cleanup s = record s {
  allocated = false;
  entries = [];
  capacity = 0;
  whitelist = [];
  blacklist = [];
}

abbrev at_least_one : ℕ → ℕ
at_least_one n = if ltb 0 n then n else 1

-- `security_configure_rate_limit`.
unfoldable pub security_configure_rate_limit : ℕ → ℕ → ℕ → Security → Security
security_configure_rate_limit max_requests window_seconds penalty_seconds s = record s {
  config = record {
    window_seconds = at_least_one window_seconds;
    max_requests = at_least_one max_requests;
    penalty_seconds = at_least_one penalty_seconds;
    max_penalties = s.config.max_penalties;
  };
}

-- `security_reset_rate_limits`.
unfoldable pub security_reset_rate_limits : Security → Security
security_reset_rate_limits s = record s { entries = [] }

-- `security_stats_t`.
pub record SecurityStats : Type 0 where
  pub rate_limit_entries : ℕ
  pub whitelist_entries : ℕ
  pub blacklist_entries : ℕ
  pub active_penalties : ℕ
  pub permanent_blocks : ℕ

-- The counting loop of `get_security_statistics`.
unfoldable pub count_penalties : RateConfig → ℕ → List Entry → ℕ × ℕ
count_penalties c now [] = (0, 0)
count_penalties c now (e ∷ es) =
    let (active, permanent) = count_penalties c now es in
    (
      (if ltb now e.penalty_until then active + 1 else active),
      (if leb c.max_penalties e.penalty_count then permanent + 1 else permanent),
    )

-- `get_security_statistics`.
unfoldable pub get_security_statistics : ℕ → Security → SecurityStats
get_security_statistics now s =
    let (active, permanent) = count_penalties s.config now s.entries in
    record {
      rate_limit_entries = length s.entries;
      whitelist_entries = length s.whitelist;
      blacklist_entries = length s.blacklist;
      active_penalties = active;
      permanent_blocks = permanent;
    }
