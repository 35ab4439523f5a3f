-- ===== src/Tests/OptionsTests.antt =====
-- The theorems on options.go, api_retries.go and api_server.go at concrete inputs.
use go_workers.Prelude.{◌≡◌, ◌≢◌, refl, true, false, none, some, ◌⊎◌, str_eq}
use go_workers.Prelude.Int.{pos, ltb_ℤ}
use go_workers.Effect.{ok}
use go_workers.Options.{Options, seconds, process_options}
use go_workers.Options.Checked.{Beats, processed_options}
use go_workers.Api.{Reader, Url}

abbrev given : Options
given = record {
  process_id = "1";
  namespace = "app";
  poll_interval = pos 0;
  database = pos 0;
  password = "";
  pool_size = pos 0;
  server_addr = "localhost:6379";
  sentinel_addrs = "";
  redis_master_name = "";
  manager_display_name = "";
  manager_start_inactive = false;
  heartbeat =
      some (record { interval = pos 0; heartbeat_ttl = seconds 3; prioritized_manager = none });
}

abbrev completed : Options
completed = record given {
  namespace = "app:";
  poll_interval = seconds 15;
  pool_size = pos 1;
  heartbeat =
      some (record { interval = seconds 5; heartbeat_ttl = seconds 3; prioritized_manager = none });
}

processing : process_options given ≡ ok completed
unfolding process_options
processing = refl

processed_options_example :
    (str_eq "1" "" ≡ false)
    × (ltb_ℤ (pos 0) (seconds 15) ≡ true)
    × (completed.pool_size ≢ pos 0)
    × ((str_eq "localhost:6379" "" ≡ false)
        ⊎ ((str_eq completed.sentinel_addrs "" ≡ false)
            × (str_eq completed.redis_master_name "" ≡ false)))
    × Beats completed.heartbeat
processed_options_example = processed_options given completed processing

abbrev pub reader : Reader
reader = record { parse_uint = λ s. (7, none); parse_int = λ s. (pos 20, none); sprintf = λ s. s }

abbrev pub third_page : Url
third_page = record { q = "Add"; page = "7"; page_size = "20" }
