-- ===== src/Venue/Stream.antt =====
-- Draining a stream, as every client's `poll_events` does, and what comes out of it.
use wickra_exchange.Prelude.{
  ℕ, suc, zero, ◌≡◌, ◌<◌, Option, none, some, List, [], ◌∷◌, ◌++◌, arith, length, ap, ◌∙◌, sym,
  append_nil, append_assoc,
}
use wickra_exchange.Prelude.Text.{Text}
use wickra_exchange.Error.{Result, ok, err}
use wickra_exchange.WsUtil.{WsConnection}

-- What ends the loop: no frame, or an error.
abbrev pub IsEnd : Result (Option Text) → Type 0
IsEnd (ok (some _)) = ⊥
IsEnd _ = Unit

-- The event of a frame, where it parses to one; other frames are skipped.
unfoldable pub one_event : {E : Type 0} → (Text → Result (Option E)) → Text → List E
one_event parse frame = elim (parse frame) [
  | err _ ↦ []
  | ok o ↦ elim o [ none ↦ [] | some event ↦ event ∷ [] ]
]

-- The events of a frame, where it parses.
unfoldable pub all_events : {E : Type 0} → (Text → Result (List E)) → Text → List E
all_events parse frame = elim (parse frame) [ err _ ↦ [] | ok events ↦ events ]

module _ {W C E : Type 0} (conn : WsConnection W C) (events_in : Text → List E) where
  -- The loop `while let Ok(Some(frame)) = connection.recv()`; `none` where the fuel is used up.
  unfoldable pub drain : ℕ → C → List E → W → Option (List E × W)
  drain zero c events w = none
  drain (suc fuel) c events w =
      let (r, w') = conn.recv c w in
      elim r [
        | err _ ↦ some (events, w')
        | ok o ↦ elim o [
          | none ↦ some (events, w')
          | some frame ↦ drain fuel c (events ++ events_in frame) w'
        ]
      ]

  -- From `w` the stream gives these frames and then none, or an error, which leaves `after`.
  abbrev pub Pending : C → List Text → W → W → Type 0
  Pending c [] w after = (r : Result (Option Text)) × (conn.recv c w ≡ (r, after)) × IsEnd r
  Pending c (frame ∷ frames) w after =
      (w' : W) × (conn.recv c w ≡ (ok (some frame), w')) × Pending c frames w' after

  -- The events of frames, in order.
  abbrev pub events_of : List Text → List E
  events_of [] = []
  events_of (frame ∷ frames) = events_in frame ++ events_of frames

  -- With more fuel than there are frames the loop ends, and returns the events of all of them, in
  -- order, behind those that it was given.
  pub drain_lem :
      (fuel : ℕ) (c : C) (frames : List Text) (events : List E) (w after : W)
      → Pending c frames w after
      → length frames < fuel
      → drain fuel c events w ≡ some (events ++ events_of frames, after)
  unfolding drain
  drain_lem zero c frames events w after h n = absurd (omega arith)
  drain_lem (suc fuel) c [] events w after (ok (some _), e, i) n = absurd i
  drain_lem (suc fuel) c [] events w after (ok none, e, i) n =
      rw (e, drain)
        (ap (λ p. some (events, p.1)) e ∙ ap (λ l. some (l, after)) (sym (append_nil events)))
  drain_lem (suc fuel) c [] events w after (err x, e, i) n =
      rw (e, drain)
        (ap (λ p. some (events, p.1)) e ∙ ap (λ l. some (l, after)) (sym (append_nil events)))
  drain_lem (suc fuel) c (frame ∷ frames) events w after (w', e, p) n =
      rw (e, drain)
        (ap (λ q. drain fuel c (events ++ events_in frame) q.1) e
          ∙ drain_lem fuel c frames (events ++ events_in frame) w' after p (omega arith)
          ∙ ap (λ l. some (l, after)) (append_assoc events (events_in frame) (events_of frames)))
