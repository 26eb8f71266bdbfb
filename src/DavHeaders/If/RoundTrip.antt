-- ===== src/DavHeaders/If/RoundTrip.antt =====
-- The header If of src/davheaders.rs, written and decoded.
use webdav_handler_rs.Prelude.{
  ℕ, zero, suc, ◌+◌, ◌≤◌, ◌≡◌, ◌≢◌, refl, sym, ap, subst, ◌∙◌, Option-cases, inl, inr, Bool, true,
  false, Option, none, some, List, [], ◌∷◌, ◌++◌, map, Bytes, nat_eq, length, length-append, All,
  arith, if◌then◌else◌, Outcome, ok, and_then,
}
use mathlib.Core.List.{append-nil, append_assoc}
use webdav_handler_rs.Text.{contains}
use webdav_handler_rs.Conditional.{ETag, IfList, IfCondition, IfItem, state_token}
use webdav_handler_rs.DavHeaders.{HeaderError, one}
use webdav_handler_rs.DavHeaders.Scanner.{
  IfToken, list_open, list_close, not_, pointy, etag, trim_left, token_at, get_token,
}
use webdav_handler_rs.DavHeaders.If.{
  start, rtag, list, negation, Parser, new_list, add, stop, go, tag_list, at_end, close, at_start,
  at_rtag, add_item, add_token, in_list, step, run, decode,
}
use webdav_handler_rs.DavHeaders.If.Written.{
  Written, write_item, write_condition, write_conditions, write_url, write, IsWritable, IsWritten,
  meaning, get_token-pointy, get_token-etag, get_token-not, get_token-open, get_token-close,
}

length-delimited :
    (b : ℕ) (s : Bytes) (c : ℕ) (rest : Bytes)
    → length rest + 1 ≤ length {A = ℕ} (b ∷ (s ++ c ∷ rest))
length-delimited b s c rest = omega (arith, length-append s (c ∷ rest))

-- Behind a list.
abbrev closed : List IfList → IfList → Parser
closed ls l = record { state = start; if_lists = ls ++ l ∷ []; cur_list = new_list }

close-closed :
    (cs : List IfCondition) (p : Parser)
    → cs ≢ []
    → close cs p ≡ ok (go (closed p.if_lists p.cur_list))
unfolding close
close-closed [] p h = absurd (h refl)
close-closed (c ∷ cs) p h = refl

module _ (parse_url : Bytes → Option Bytes) (o : Outcome HeaderError (List IfList)) where
  -- From `p` the loop comes to `o` on `rest`, if the rounds suffice.
  abbrev Goes : Parser → Bytes → Type 0
  Goes p rest = (fuel : ℕ) → length rest + 2 ≤ fuel → run parse_url fuel p rest ≡ o

  -- One round, on a token that takes a byte at least.
  round :
      (p q : Parser) (buf rest : Bytes) (tok : IfToken)
      → get_token buf ≡ ok (tok, rest)
      → length rest + 1 ≤ length buf
      → step parse_url p.state tok p ≡ ok (go q)
      → Goes q rest
      → Goes p buf
  unfolding run
  round p q buf rest tok token shorter stepped goes zero enough = absurd (omega (arith, enough))
  round p q buf rest tok token shorter stepped goes (suc fuel) enough =
      rw (token, stepped) (goes fuel (omega (arith, enough, shorter)))

  module _ (ls : List IfList) where
    -- In the list `l`, behind a `Not` or not.
    abbrev inside : Bool → IfList → Parser
    inside negated l = record {
      state = if negated then negation else list;
      if_lists = ls;
      cur_list = l;
    }

    step-state_token :
        (negated : Bool) (l : IfList) (s : Bytes)
        → contains s b':' ≡ true
        → step parse_url (inside negated l).state (pointy s) (inside negated l)
          ≡ ok (go (inside false (add negated (state_token s) l)))
    unfolding step in_list add_token add_item
    step-state_token true l s colon = rw colon refl
    step-state_token false l s colon = rw colon refl

    step-etag :
        (negated : Bool) (l : IfList) (e : ETag)
        → step parse_url (inside negated l).state (etag e) (inside negated l)
          ≡ ok (go (inside false (add negated (IfItem.etag e) l)))
    unfolding step in_list add_item
    step-etag true l e = refl
    step-etag false l e = refl

    run-item :
        (negated : Bool) (l : IfList) (item : IfItem) (rest : Bytes)
        → IsWritable (record { negated = negated; item = item })
        → Goes (inside false (add negated item l)) rest
        → Goes (inside negated l) (write_item item rest)
    unfolding write_item
    run-item negated l (state_token s) rest h goes =
        round (inside negated l) _ _ rest (pointy s) (get_token-pointy s rest h.0)
          (length-delimited b'<' s b'>' rest) (step-state_token negated l s h.1) goes
    run-item negated l (IfItem.etag e) rest h goes =
        round (inside negated l) _ _ rest (etag e) (get_token-etag e rest h.0 h.1)
          (length-delimited b'[' e.tag b']' rest) (step-etag negated l e) goes

    run-negated :
        (negated : Bool) (l : IfList) (item : IfItem) (rest : Bytes)
        → IsWritable (record { negated = negated; item = item })
        → Goes (inside false (add negated item l)) rest
        → Goes (inside false l) (write_condition (record { negated = negated; item = item }) rest)
    unfolding write_condition
    run-negated false l item rest h goes = run-item false l item rest h goes
    run-negated true l item rest h goes =
        round (inside false l) (inside true l) _ (write_item item rest) not_
          (get_token-not (write_item item rest)) (omega arith) (unfold step in_list in refl)
          (run-item true l item rest h goes)

    run-conditions :
        (cs : List IfCondition) (l : IfList) (rest : Bytes)
        → l.conditions ++ cs ≢ []
        → All IsWritable cs
        → Goes (closed ls (record l { conditions = l.conditions ++ cs })) rest
        → Goes (inside false l) (write_conditions cs rest)
    unfolding write_conditions
    run-conditions [] l rest some_ h goes =
        round (inside false l) (closed ls l) _ rest list_close (get_token-close rest) (omega arith)
          (unfold step in_list in
            close-closed l.conditions (inside false l) (λ k. some_ (append-nil l.conditions ∙ k)))
          (subst (λ cs. Goes (closed ls (record l { conditions = cs })) rest)
            (append-nil l.conditions) goes)
    run-conditions (c ∷ cs) l rest some_ h goes =
        run-negated c.negated l c.item (write_conditions cs rest) h.0 (
          run-conditions cs (add c.negated c.item l) rest
            (unfold add in λ k. some_ (sym (append_assoc l.conditions (c ∷ []) cs) ∙ k)) h.1
            (unfold add in
              subst (λ ds. Goes (closed ls (record l { conditions = ds })) rest)
                (sym (append_assoc l.conditions (c ∷ []) cs)) goes))

    -- Between two lists.
    abbrev between : Parser
    between = record { state = start; if_lists = ls; cur_list = new_list }

    run-bracket :
        (p : Parser) (cs : List IfCondition) (l : IfList) (rest : Bytes)
        → step parse_url p.state list_open p ≡ ok (go (inside false l))
        → cs ≢ []
        → l.conditions ≡ []
        → All IsWritable cs
        → Goes (closed ls (record l { conditions = cs })) rest
        → Goes p (b'(' ∷ write_conditions cs rest)
    run-bracket p cs l rest opened some_ none_ h goes =
        round p (inside false l) _ (write_conditions cs rest) list_open (get_token-open _)
          (omega arith) opened
          (run-conditions cs l rest (λ k. some_ (ap (λ ds. ds ++ cs) (sym none_) ∙ k)) h
            (subst (λ ds. Goes (closed ls (record l { conditions = ds ++ cs })) rest) (sym none_)
              goes))

    run-list :
        (url : Option Bytes) (cs : List IfCondition) (rest : Bytes)
        → IsWritten parse_url (record { url = url; conditions = cs })
        → Goes (closed ls (meaning parse_url (record { url = url; conditions = cs }))) rest
        → Goes between (write_url url (b'(' ∷ write_conditions cs rest))
    unfolding write_url
    run-list none cs rest h goes =
        run-bracket between cs new_list rest (unfold step at_start in refl) h.nonempty refl
          h.writable goes
    run-list (some u) cs rest h goes = elim (Option-cases (parse_url u)) [
      | inl bad_url ↦ absurd (h.url.1 bad_url)
      | inr (v, e) ↦
          round between
            (record {
              state = rtag;
              if_lists = ls;
              cur_list = record { resource_tag = parse_url u; conditions = [] };
            })
            _ (b'(' ∷ write_conditions cs rest) (pointy u) (get_token-pointy u _ h.url.0)
            (length-delimited b'<' u b'>' (b'(' ∷ write_conditions cs rest))
            (unfold step at_start tag_list in rw e refl)
            (run-bracket _ cs (record { resource_tag = parse_url u; conditions = [] }) rest
              (unfold step at_rtag in refl) h.nonempty refl h.writable goes)
    ]

    run-end : ls ≢ [] → o ≡ ok ls → Goes between []
    unfolding run get_token trim_left token_at step at_start
    run-end some_ e zero enough = absurd (omega (arith, enough))
    run-end some_ e (suc fuel) enough = ended ls some_
      where
        ended :
            (ks : List IfList)
            → ks ≢ []
            → and_then
                (at_end ks between)
                (λ r. elim r [ stop ↦ ok ls | go q ↦ run parse_url fuel q [] ])
              ≡ o
        ended [] w = absurd (w refl)
        ended (k ∷ ks) w = unfold at_end in sym e

module _ (parse_url : Bytes → Option Bytes) where
  run-lists :
      (ws : List Written) (ls : List IfList) (o : Outcome HeaderError (List IfList))
      → All (IsWritten parse_url) ws
      → ls ++ map (meaning parse_url) ws ≢ []
      → o ≡ ok (ls ++ map (meaning parse_url) ws)
      → Goes parse_url o (between parse_url o ls) (write ws)
  unfolding write
  run-lists [] ls o h some_ e =
      run-end parse_url o ls (λ k. some_ (append-nil ls ∙ k)) (e ∙ ap ok (append-nil ls))
  run-lists (w ∷ ws) ls o h some_ e =
      let more : (ls ++ meaning parse_url w ∷ []) ++ map (meaning parse_url) ws
          ≡ ls ++ map (meaning parse_url) (w ∷ ws) =
        append_assoc ls _ _ in
      run-list parse_url o ls w.url w.conditions (write ws) h.0 (
        run-lists ws (ls ++ meaning parse_url w ∷ []) o h.1 (λ k. some_ (sym more ∙ k))
          (e ∙ ap ok (sym more)))

  -- An If header that is written from lists of conditions is decoded to those lists, each with
  -- the path that its url parses to. The lists are not empty, the urls parse, a state token has a
  -- colon, a tag is one that `from_str` reads, and each of these texts is UTF-8 and fits between
  -- its brackets: no white space, and the closing bracket only between quotes.
  pub decode-write :
      (ws : List Written)
      → All (IsWritten parse_url) ws
      → ws ≢ []
      → decode parse_url (write ws ∷ []) ≡ ok (map (meaning parse_url) ws)
  unfolding decode one
  decode-write ws h some_ =
      run-lists ws [] (ok (map (meaning parse_url) ws)) h (kept ws some_) refl
        (length (write ws) + 2) (omega arith)
    where
      kept : (vs : List Written) → vs ≢ [] → map (meaning parse_url) vs ≢ []
      kept [] w k = w refl
      kept (v ∷ vs) w k = cc
