-- ===== src/Conditional/Lists.antt =====
-- The If header of src/conditional.rs, by its lists and their conditions.
use mathlib.Core.List.{append_assoc, append-nil}
use webdav_handler_rs.Prelude.{
  ◌≡◌, refl, ap, ◌∙◌, Bool, true, false, not, ◌&&◌, ◌||◌, Option, none, some, List, [], ◌∷◌, ◌++◌,
  Bytes, arith, map, any, concat, All, if◌then◌else◌, Outcome, ok,
}
use webdav_handler_rs.Errors.{FsError}
use webdav_handler_rs.DavPath.{DavPath}
use webdav_handler_rs.LockCheck.{Claim}
use webdav_handler_rs.Conditional.{
  IfCondition, IfItem, IfList, Request, Meta, condition_ok, conditions_ok, tokens_of, list_ok,
  lists_ok, dav_if_match,
}

-- All of the conditions, by what their items come to.
unfoldable pub all_hold : (IfItem → Bool) → List IfCondition → Bool
all_hold holds [] = true
all_hold holds (c ∷ cs) = (if holds c.item then not c.negated else c.negated) && all_hold holds cs

abbrev pub has_some : List IfCondition → Bool
has_some [] = false
has_some (c ∷ cs) = true

-- The tokens of all the lists.
abbrev pub all_tokens : List IfList → List Bytes
all_tokens ls = concat (map (λ l. tokens_of l.conditions) ls)

-- The If header as a whole.
abbrev pub header_holds : (IfList → Bool) → Option (List IfList) → Bool
header_holds holds none = true
header_holds holds (some ls) = any holds ls

abbrev pub header_lists : Option (List IfList) → List IfList
header_lists none = []
header_lists (some ls) = ls

module _ {E L : Type 0} (percent_decode : Bytes → Bytes) (metadata : DavPath → Outcome FsError Meta)
    (check : Option (DavPath → Claim → Bool → Outcome L (Unit {0}))) where
  -- Past the first condition the list holds if the rest does.
  conditions_ok-rest :
      (p : DavPath) (valid so_far : Bool) (holds : IfItem → Bool) (cs : List IfCondition)
      → All
          (λ (c : IfCondition).
            condition_ok {E = E} percent_decode metadata check p valid c.item ≡ ok (holds c.item))
          cs
      → conditions_ok {E = E} percent_decode metadata check p valid so_far cs
        ≡ ok ((so_far || has_some cs) && all_hold holds cs)
  unfolding conditions_ok all_hold
  conditions_ok-rest p valid so_far holds [] h = ground arith
  conditions_ok-rest p valid so_far holds (c ∷ cs) h =
      rw h.0 (ground (arith, conditions_ok-rest p valid true holds cs h.1))

  -- If each condition's item comes to `holds` of it, then a list holds exactly if it has a
  -- condition, and every one holds, or is negated and does not.
  pub conditions_ok-all_hold :
      (p : DavPath) (valid : Bool) (holds : IfItem → Bool) (cs : List IfCondition)
      → All
          (λ (c : IfCondition).
            condition_ok {E = E} percent_decode metadata check p valid c.item ≡ ok (holds c.item))
          cs
      → conditions_ok {E = E} percent_decode metadata check p valid false cs
        ≡ ok (has_some cs && all_hold holds cs)
  conditions_ok-all_hold p valid holds cs h = conditions_ok-rest p valid false holds cs h

  lists_ok-any :
      (path : DavPath) (found : Bool) (tokens : List Bytes) (holds : IfList → Bool)
      (ls : List IfList)
      → All (λ (l : IfList). list_ok {E = E} percent_decode metadata check path l ≡ ok (holds l)) ls
      → lists_ok {E = E} percent_decode metadata check path found tokens ls
        ≡ ok (found || any holds ls, tokens ++ all_tokens ls)
  unfolding lists_ok any concat
  lists_ok-any path found tokens holds [] h = rw (append-nil tokens) (ground arith)
  lists_ok-any path true tokens holds (l ∷ ls) h =
      lists_ok-any path true (tokens ++ tokens_of l.conditions) holds ls h.1
      ∙ ap (λ t. ok (true, t)) (append_assoc tokens (tokens_of l.conditions) (all_tokens ls))
  lists_ok-any path false tokens holds (l ∷ ls) h = rw h.0 (
      lists_ok-any path (holds l) (tokens ++ tokens_of l.conditions) holds ls h.1
      ∙ ap (λ t. ok (holds l || any holds ls, t))
          (append_assoc tokens (tokens_of l.conditions) (all_tokens ls)))

  -- If each list of the If header comes to `holds` of it, then the request passes exactly if it
  -- has no If header or one of its lists holds, and the tokens of all the lists are returned, of
  -- those after the first that holds too.
  pub dav_if_match-any :
      (req : Request) (path : DavPath) (holds : IfList → Bool)
      → All
          (λ (l : IfList). list_ok {E = E} percent_decode metadata check path l ≡ ok (holds l))
          (header_lists req.if_)
      → dav_if_match {E = E} percent_decode metadata check req path
        ≡ ok (header_holds holds req.if_, all_tokens (header_lists req.if_))
  unfolding dav_if_match
  dav_if_match-any req path holds h = by_header req.if_ refl h
    where
      by_header :
          (o : Option (List IfList))
          → req.if_ ≡ o
          → All
              (λ (l : IfList). list_ok {E = E} percent_decode metadata check path l ≡ ok (holds l))
              (header_lists o)
          → dav_if_match {E = E} percent_decode metadata check req path
            ≡ ok (header_holds holds o, all_tokens (header_lists o))
      by_header none e k = rw (dav_if_match, e) (unfold concat in refl)
      by_header (some ls) e k = rw (dav_if_match, e) (lists_ok-any path false [] holds ls k)
