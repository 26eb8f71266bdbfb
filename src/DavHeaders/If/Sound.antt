-- ===== src/DavHeaders/If/Sound.antt =====
-- What the header If of src/davheaders.rs decodes to.
use webdav_handler_rs.Prelude.{
  ℕ, zero, suc, ◌+◌, ◌≤◌, ◌<◌, ◌≡◌, ◌≢◌, ◌⊎◌, refl, inl, inr, Option, List, [], ◌∷◌, Bytes, length,
  All, arith, ok, Ensures, Ensures-imp, Ensures-and_then,
}
use webdav_handler_rs.Conditional.{IfList}
use webdav_handler_rs.DavHeaders.{one}
use webdav_handler_rs.DavHeaders.Scanner.{
  IfToken, list_open, list_close, not_, word, pointy, etag, end, get_token,
}
use webdav_handler_rs.DavHeaders.Scanner.Progress.{IsTokenOf, get_token-IsTokenOf}
use webdav_handler_rs.DavHeaders.If.{
  IfState, start, rtag, list, negation, bad, Parser, Round, stop, go, step, run, initial, decode,
}
use webdav_handler_rs.DavHeaders.If.Rounds.{
  IsList, IsParser, IsRound, IsToken, step-Rounds, IsRound-stop, IsRound-go,
}

-- Lists of conditions, none of them empty.
abbrev pub IsDecoded : List IfList → Type 0
IsDecoded lists = (lists ≢ []) × All IsList lists

IsTokenOf-parts :
    (input : Bytes) (t : IfToken × Bytes)
    → IsTokenOf input t
    → IsToken t.0 × ((t.0 ≡ end) ⊎ (length t.1 < length input))
IsTokenOf-parts input (list_open, rest) h = (tt, inr h)
IsTokenOf-parts input (list_close, rest) h = (tt, inr h)
IsTokenOf-parts input (not_, rest) h = (tt, inr h)
IsTokenOf-parts input (word s, rest) h = (tt, inr h)
IsTokenOf-parts input (pointy s, rest) h = (tt, inr h)
IsTokenOf-parts input (etag e, rest) h = (h.0, inr h.1)
IsTokenOf-parts input (end, rest) h = (tt, inl refl)

module _ (parse_url : Bytes → Option Bytes) where
  -- A round in the state `bad` returns an error.
  step-alive :
      (s : IfState) (tok : IfToken) (p : Parser)
      → IsToken tok
      → IsParser p
      → Ensures (λ r. IsRound tok p r × (s ≢ bad)) (step parse_url s tok p)
  step-alive bad tok p t h = unfold step in tt
  step-alive start tok p t h =
      Ensures-imp (IsRound tok p) _ _ (step-Rounds parse_url start tok p t h) (λ r k. (k, λ e. cc))
  step-alive rtag tok p t h =
      Ensures-imp (IsRound tok p) _ _ (step-Rounds parse_url rtag tok p t h) (λ r k. (k, λ e. cc))
  step-alive list tok p t h =
      Ensures-imp (IsRound tok p) _ _ (step-Rounds parse_url list tok p t h) (λ r k. (k, λ e. cc))
  step-alive negation tok p t h =
      Ensures-imp (IsRound tok p) _ _ (step-Rounds parse_url negation tok p t h)
        (λ r k. (k, λ e. cc))

  -- One round is enough in the state `bad`, and else two more than there are bytes.
  run-IsDecoded :
      (fuel : ℕ) (p : Parser) (input : Bytes)
      → ((p.state ≡ bad) × (1 ≤ fuel)) ⊎ (length input + 2 ≤ fuel)
      → IsParser p
      → Ensures IsDecoded (run parse_url fuel p input)
  unfolding run
  run-IsDecoded zero p input (inl e) h = absurd (omega (arith, e.1))
  run-IsDecoded zero p input (inr e) h = absurd (omega (arith, e))
  run-IsDecoded (suc fuel) p input enough h =
      Ensures-and_then (IsTokenOf input) IsDecoded (get_token input) _ (get_token-IsTokenOf input)
        λ t k.
          let (tok, shorter) = IsTokenOf-parts input t k in
          Ensures-and_then (λ r. IsRound t.0 p r × (p.state ≢ bad)) IsDecoded
            (step parse_url p.state t.0 p) _ (step-alive p.state t.0 p tok h)
            λ r k'. round (run-IsDecoded fuel) t shorter r k'.0 (rounds_left k'.1 enough)
    where
      rounds_left :
          p.state ≢ bad
          → ((p.state ≡ bad) × (1 ≤ suc fuel)) ⊎ (length input + 2 ≤ suc fuel)
          → length input + 2 ≤ suc fuel
      rounds_left alive (inl e) = absurd (alive e.0)
      rounds_left alive (inr e) = e

      round :
          ((q : Parser) (rest : Bytes)
            → ((q.state ≡ bad) × (1 ≤ fuel)) ⊎ (length rest + 2 ≤ fuel)
            → IsParser q
            → Ensures IsDecoded (run parse_url fuel q rest))
          → (t : IfToken × Bytes) → (t.0 ≡ end) ⊎ (length t.1 < length input)
          → (r : Round) → IsRound t.0 p r
          → length input + 2 ≤ suc fuel
          → Ensures IsDecoded (elim r [ stop ↦ ok p.if_lists | go q ↦ run parse_url fuel q t.1 ])
      round rec t s stop k left = (IsRound-stop t.0 p k, h.lists)
      round rec t s (go q) k left =
          let (good, at_end) = IsRound-go t.0 p q k in
          rec q t.1
            (elim s [
              | inl ended ↦ inl (at_end ended, omega (arith, left))
              | inr less ↦ inr (omega (arith, left, less))
            ])
            good

  -- The state machine of the If header ends with the rounds that it has: it returns, fails or
  -- panics. If it returns, there is a list, no list is empty, each state token has a colon, and
  -- each tag is one that `from_str` reads.
  pub decode-IsDecoded : (values : List Bytes) → Ensures IsDecoded (decode parse_url values)
  unfolding decode one
  decode-IsDecoded [] = tt
  decode-IsDecoded (v ∷ []) =
      run-IsDecoded (length v + 2) initial v (inr (omega arith)) (record { lists = tt; items = tt })
  decode-IsDecoded (v ∷ w ∷ ws) = tt
