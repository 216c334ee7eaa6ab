-- ===== src/Heartbeat/Beats.antt =====
-- What the heartbeat's counters count.
use rust_basics.Prelude.{
  ℕ, suc, ap, ◌+◌, ◌≡◌, ◌∙◌, refl, Option, none, some, List, [], ◌∷◌, length, arith, inl, inr,
  Result-cases,
}
use rust_basics.Resilient.Platform.{Platform}
use rust_basics.Resilient.Request.{get_request}
use rust_basics.Resilient.Client.Returns.{send_with_retry-Returns}
use rust_basics.Heartbeat.{Upstream, Worker, Tick, poll, beat, loop, run}

module _ (p : Platform) (random : ℕ → ℕ) where
  -- A worker whose upstream has been polled `n` more times than `w`'s, if it has one.
  abbrev pub Polled : ℕ → Option (Upstream p) → Option (Upstream p) → Type 0
  Polled n none o = o ≡ none
  Polled n (some up) o =
      (after : Upstream p) × (o ≡ some after)
      × (after.url ≡ up.url)
      × (after.checks_ok + after.checks_err ≡ up.checks_ok + up.checks_err + n)

  poll-Polled : (tick : Tick p) (up : Upstream p) → Polled 1 (some up) (poll p random tick up)
  unfolding poll
  poll-Polled tick up =
      let (last, result, e) =
        send_with_retry-Returns p random (get_request "upstream" up.url) tick.tries up.client
          tick.now in
      elim (Result-cases result) [
        | inl (resp, f) ↦ rw (e, f, poll) (_, refl, refl, omega arith)
        | inr (x, f) ↦ rw (e, f, poll) (_, refl, refl, omega arith)
      ]

  upstream_Polled :
      (tick : Tick p) (o : Option (Upstream p))
      → Polled 1 o (elim o [ none ↦ none | some up ↦ poll p random tick up ])
  upstream_Polled tick none = refl
  upstream_Polled tick (some up) = poll-Polled tick up

  Polled-none : (o : Option (Upstream p)) → Polled 0 o o
  Polled-none none = refl
  Polled-none (some up) = (up, refl, refl, omega arith)

  Polled-trans :
      (n : ℕ) (a b c : Option (Upstream p)) → Polled 1 a b → Polled n b c → Polled (suc n) a c
  Polled-trans n none none c f g = g
  Polled-trans n none (some v) c f g = cc
  Polled-trans n (some u) none c (v, e, _, _) g = cc
  Polled-trans n (some u) (some v) c (v', e, url, sum) (w, f, url', sum') =
      let same : v ≡ v' = cc in
      (
        w,
        f,
        url' ∙ ap (λ x. x.url) same ∙ url,
        omega (arith, ap (λ x. x.checks_ok) same, ap (λ x. x.checks_err) same),
      )

  beat-beats : (tick : Tick p) (w : Worker p) → (beat p random tick w).beats ≡ w.beats + 1
  unfolding beat
  beat-beats tick w = refl

  beat-Polled : (tick : Tick p) (w : Worker p) → Polled 1 w.upstream (beat p random tick w).upstream
  unfolding beat
  beat-Polled tick w = upstream_Polled tick w.upstream

  loop-Polled :
      (ticks : List (Tick p)) (w : Worker p)
      → ((loop p random ticks w).beats ≡ w.beats + length ticks)
        × Polled (length ticks) w.upstream (loop p random ticks w).upstream
  unfolding loop
  loop-Polled [] w = (omega arith, Polled-none w.upstream)
  loop-Polled (tick ∷ ticks) w =
      let rest = loop-Polled ticks (beat p random tick w) in
      (
        omega (arith, rest.0, beat-beats tick w),
        Polled-trans (length ticks) w.upstream (beat p random tick w).upstream _
            (beat-Polled tick w) rest.1,
      )

  -- After `run` has seen its first tick and any number of further ones, it has counted one beat for
  -- each of these, and, if it has an upstream, one check for each, `ok` or `err`; the upstream stays.
  pub run-Polled :
      (first : Tick p) (ticks : List (Tick p)) (w : Worker p)
      → ((run p random (first ∷ ticks) w).beats ≡ w.beats + length ticks)
        × Polled (length ticks) w.upstream (run p random (first ∷ ticks) w).upstream
  unfolding run
  run-Polled first ticks w = loop-Polled ticks w
