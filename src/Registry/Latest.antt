-- ===== src/Registry/Latest.antt =====
-- The table of servers against the history of each key.
use zqim.Prelude.{
  ℕ, ◌≡◌, ◌≢◌, refl, ◌∙◌, ap, arith, Option, none, some, List, [], ◌∷◌, if◌then◌else◌, inl, inr,
  Option-cases, string_eq,
}
use zqim.Prelude.Maps
use Prim.Native.String.{String}
use zqim.Registry.{Comits, Event, put, delete, add_comit_server, watch_event, watch}

module _ (dial : String → Option ℕ) (own k : String) where
  abbrev pub or_else : Option ℕ → Option ℕ → Option ℕ
  or_else none cur = cur
  or_else (some s) cur = some s

  -- What the events of one key leave for it, starting from `cur`: the latest that could be dialled
  -- since it was last deleted.
  abbrev pub latest : List Event → Option ℕ → Option ℕ
  latest [] cur = cur
  latest (put j v ∷ es) cur = latest es (if string_eq.beq j k then or_else (dial v) cur else cur)
  latest (delete j ∷ es) cur = latest es (if string_eq.beq j k then none else cur)

  watch_event-put :
      (j v : String) (c : Comits)
      → k ≢ own
      → Maps.lookup k (watch_event dial own (put j v) c)
        ≡ (if string_eq.beq j k then or_else (dial v) (Maps.lookup k c) else Maps.lookup k c)
  unfolding watch_event add_comit_server
  watch_event-put j v c d = elim (Option-cases (dial v)) [
    | inl e ↦
        rw (e, watch_event, add_comit_server)
          (ground (arith, string_eq.beq_iff j k, string_eq.beq_iff j own))
    | inr (s, e) ↦
        rw (e, watch_event, add_comit_server)
          (ground
            (arith, Maps.lookup-insert j k s c, string_eq.beq_iff j k, string_eq.beq_iff j own))
  ]

  watch_event-delete :
      (j : String) (c : Comits)
      → k ≢ own
      → Maps.lookup k (watch_event dial own (delete j) c)
        ≡ (if string_eq.beq j k then none else Maps.lookup k c)
  unfolding watch_event
  watch_event-delete j c d =
      ground (arith, Maps.lookup-erase j k c, string_eq.beq_iff j k, string_eq.beq_iff j own)

  -- Whatever events arrive, the table has for every other server what the events of its key leave.
  pub watch-latest :
      (es : List Event) (c : Comits)
      → k ≢ own
      → Maps.lookup k (watch dial own es c) ≡ latest es (Maps.lookup k c)
  unfolding watch
  watch-latest [] c d = refl
  watch-latest (put j v ∷ es) c d =
      watch-latest es (watch_event dial own (put j v) c) d
      ∙ ap (latest es) (watch_event-put j v c d)
  watch-latest (delete j ∷ es) c d =
      watch-latest es (watch_event dial own (delete j) c) d
      ∙ ap (latest es) (watch_event-delete j c d)
