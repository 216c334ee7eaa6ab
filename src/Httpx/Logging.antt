-- ===== src/Httpx/Logging.antt =====
-- crates/httpx/src/logging.rs: the subscriber of a service that exports no spans.
use rust_basics.Prelude.{◌≡◌, none, some, String, if◌then◌else◌, arith}
use rust_basics.Tracing.{
  Format, text, json, eq_ignore_ascii_case, Tracing, IsTracing, first_of, choose,
}

module _ (lib : Tracing) where
  open lib use {G, Filter, Provider, try_from_default_env, try_new, new_filter, try_init}

  -- `RUST_LOG` if it is set and well-formed, or else the level, or else `info`.
  unfoldable pub filter_of : String → G → Filter
  filter_of level g = choose (try_from_default_env g) (try_new level) (new_filter "info")

  abbrev pub format_of : String → Format
  format_of format = if eq_ignore_ascii_case format "text" then text else json

  unfoldable pub init_tracing : String → String → G → G
  init_tracing level format g =
      let filter = filter_of level g in
      if eq_ignore_ascii_case format "text"
      then try_init (record { filter = filter; format = text; exporter = none }) g
      else try_init (record { filter = filter; format = json; exporter = none }) g

  module _ (law : IsTracing lib) where
    open law use {subscriber, subscriber-try_init}

    -- In a process without a subscriber `init_tracing` installs one, in the format that was asked
    -- for and without an exporter; in any other process it changes nothing of the subscriber.
    pub subscriber-init_tracing :
        (level format : String) (g : G)
        → subscriber (init_tracing level format g)
          ≡ some (
              first_of
                (subscriber g)
                (record { filter = filter_of level g; format = format_of format; exporter = none }))
    unfolding init_tracing
    subscriber-init_tracing level format g =
        let a =
          subscriber-try_init
            (record { filter = filter_of level g; format = text; exporter = none }) g in
        let b =
          subscriber-try_init
            (record { filter = filter_of level g; format = json; exporter = none }) g in
        ground arith
