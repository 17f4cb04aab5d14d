-- ===== src/Logging/Fanout.antt =====
-- Which handlers a record reaches (internal/observability/logger/logger.go).
use opentrusty.Prelude.{
  Bool, Bool-cases, List, [], any_row, arith, find_rows, inl, inr, refl, ◌∷◌, ◌≡◌,
}
use opentrusty.Audit.{Attr}
use opentrusty.Logging.{Level, fanout_enabled, fanout_handle}

module _ {H : Type 0} {State : Type 0} (enabled : H → Level → Bool)
    (handle : H → Level → List Attr → State → State) (with_attributes : H → List Attr → H) where
  -- The handlers that are enabled, in their order, handle the record.
  abbrev in_turn : List H → Level → List Attr → State → State
  in_turn [] level attrs s = s
  in_turn (h ∷ hs) level attrs s = in_turn hs level attrs (handle h level attrs s)

  -- A record is handled by the handlers that are enabled at its level, each once and in their order;
  -- the handler of handlers is enabled at a level if one of them is.
  pub fanout_handle_lem :
      (hs : List H) (level : Level) (attrs : List Attr) (s : State)
      → (fanout_handle enabled handle with_attributes hs level attrs s
          ≡ in_turn (find_rows (λ h. enabled h level) hs) level attrs s)
        × (fanout_enabled enabled handle with_attributes hs level
            ≡ any_row (λ h. enabled h level) hs)
  unfolding fanout_handle fanout_enabled
  fanout_handle_lem [] level attrs s = (refl, refl)
  fanout_handle_lem (h ∷ hs) level attrs s = elim (Bool-cases (enabled h level)) [
    | inl e ↦ ground (arith, fanout_handle_lem hs level attrs (handle h level attrs s))
    | inr e ↦ ground (arith, fanout_handle_lem hs level attrs s)
  ]
