-- ===== src/DavHeaders/If/Rounds.antt =====
-- The rounds of the state machine of the header If in src/davheaders.rs, and what its lists hold.
use webdav_handler_rs.Prelude.{
  ◌≡◌, ◌≢◌, refl, Bool, true, false, Option, none, some, List, [], ◌∷◌, Bytes, All, All-append,
  Outcome, Ensures, Ensures-imp, Ensures-if,
}
use webdav_handler_rs.Text.{contains}
use webdav_handler_rs.Conditional.{IfList, IfCondition, IfItem, state_token}
use webdav_handler_rs.DavHeaders.{HeaderError}
use webdav_handler_rs.DavHeaders.Scanner.{
  IfToken, list_open, list_close, not_, word, pointy, etag, end,
}
use webdav_handler_rs.DavHeaders.Scanner.Progress.{IsRead}
use webdav_handler_rs.DavHeaders.If.{
  IfState, start, rtag, list, negation, bad, Parser, add, Round, stop, go, at_start, at_rtag,
  add_item, add_token, close, tag_list, at_end, in_list, step,
}

-- A state token has a colon, and a tag is one that `from_str` reads.
abbrev pub IsItem : IfItem → Type 0
IsItem (state_token s) = contains s b':' ≡ true
IsItem (IfItem.etag e) = IsRead e

abbrev pub IsCondition : IfCondition → Type 0
IsCondition c = IsItem c.item

pub record IsList (l : IfList) : Type 0 where
  pub nonempty : l.conditions ≢ []
  pub items : All IsCondition l.conditions

pub record IsParser (p : Parser) : Type 0 where
  pub lists : All IsList p.if_lists
  pub items : All IsCondition p.cur_list.conditions

-- At the end of the input the loop stops, or goes on in the state `bad`.
abbrev pub IsRound : IfToken → Parser → Round → Type 0
IsRound tok p stop = p.if_lists ≢ []
IsRound end p (go q) = IsParser q × (q.state ≡ bad)
IsRound tok p (go q) = IsParser q

abbrev Rounds : IfToken → Parser → Outcome HeaderError Round → Type 0
Rounds tok p = Ensures (IsRound tok p)

at_state : (p : Parser) (s : IfState) → IsParser p → IsParser (record p { state = s })
at_state p s h = record { lists = h.lists; items = h.items }

at_rtag-Rounds : (tok : IfToken) (p : Parser) → IsParser p → Rounds tok p (at_rtag tok p)
unfolding at_rtag
at_rtag-Rounds list_open p h = at_state p list h
at_rtag-Rounds list_close p h = at_state p bad h
at_rtag-Rounds not_ p h = at_state p bad h
at_rtag-Rounds (word w) p h = at_state p bad h
at_rtag-Rounds (pointy w) p h = at_state p bad h
at_rtag-Rounds (etag e) p h = at_state p bad h
at_rtag-Rounds end p h = (at_state p bad h, refl)

add-IsParser :
    (negated : Bool) (item : IfItem) (p : Parser)
    → IsItem item
    → IsParser p
    → IsParser (record p { state = list; cur_list = add negated item p.cur_list })
unfolding add
add-IsParser negated item p i h = record {
  lists = h.lists;
  items = All-append IsCondition p.cur_list.conditions _ h.items (i, tt);
}

-- The rounds inside a list go on.
abbrev GoesOn : Round → Type 0
GoesOn stop = ⊥
GoesOn (go q) = IsParser q

add_token-GoesOn :
    (negated : Bool) (s : Bytes) (p : Parser) → IsParser p → Ensures GoesOn (add_token negated s p)
unfolding add_token add_item
add_token-GoesOn negated s p h =
    Ensures-if GoesOn (contains s b':') _ _
      (λ colon. add-IsParser negated (state_token s) p colon h) (λ _. at_state p bad h)

close-GoesOn :
    (cs : List IfCondition) (p : Parser)
    → p.cur_list.conditions ≡ cs
    → IsParser p
    → Ensures GoesOn (close cs p)
unfolding close
close-GoesOn [] p e h = at_state p bad h
close-GoesOn (c ∷ cs) p e h = record {
  lists =
      All-append IsList p.if_lists _ h.lists (record { nonempty = λ k. cc; items = h.items }, tt);
  items = tt;
}

tag_list-GoesOn : (u : Option Bytes) (p : Parser) → IsParser p → Ensures GoesOn (tag_list u p)
unfolding tag_list
tag_list-GoesOn none p h = tt
tag_list-GoesOn (some u) p h = record { lists = h.lists; items = h.items }

at_end-IsRound :
    (ls : List IfList) (p : Parser)
    → p.if_lists ≡ ls
    → IsParser p
    → Ensures (IsRound end p) (at_end ls p)
unfolding at_end
at_end-IsRound [] p e h = (at_state p bad h, refl)
at_end-IsRound (l ∷ ls) p e h = λ k. cc

-- At any token but `end`.
goes_on :
    (tok : IfToken) (p : Parser)
    → tok ≢ end
    → (o : Outcome HeaderError Round) → Ensures GoesOn o
    → Rounds tok p o
goes_on tok p other o h = Ensures-imp GoesOn (IsRound tok p) o h (at_round tok other)
  where
    at_round : (t : IfToken) → t ≢ end → (r : Round) → GoesOn r → IsRound t p r
    at_round t w stop h = absurd h
    at_round end w (go q) h = absurd (w refl)
    at_round list_open w (go q) h = h
    at_round list_close w (go q) h = h
    at_round not_ w (go q) h = h
    at_round (word s) w (go q) h = h
    at_round (pointy s) w (go q) h = h
    at_round (etag e) w (go q) h = h

-- A tag is one that `from_str` reads.
abbrev pub IsToken : IfToken → Type 0
IsToken (etag e) = IsRead e
IsToken _ = Unit

at_start-Rounds :
    (parse_url : Bytes → Option Bytes) (tok : IfToken) (p : Parser)
    → IsParser p
    → Rounds tok p (at_start parse_url tok p)
unfolding at_start
at_start-Rounds parse_url list_open p h = at_state p list h
at_start-Rounds parse_url list_close p h = at_state p bad h
at_start-Rounds parse_url not_ p h = at_state p bad h
at_start-Rounds parse_url (word w) p h = at_state p bad h
at_start-Rounds parse_url (etag e) p h = at_state p bad h
at_start-Rounds parse_url (pointy url) p h =
    goes_on (pointy url) p (λ e. cc) (tag_list (parse_url url) p)
      (tag_list-GoesOn (parse_url url) p h)
at_start-Rounds parse_url end p h = at_end-IsRound p.if_lists p refl h

in_list-Rounds :
    (negated : Bool) (tok : IfToken) (p : Parser)
    → IsToken tok
    → IsParser p
    → Rounds tok p (in_list negated tok p)
unfolding in_list
in_list-Rounds true not_ p t h = at_state p bad h
in_list-Rounds false not_ p t h = at_state p negation h
in_list-Rounds negated (pointy s) p t h =
    goes_on (pointy s) p (λ e. cc) (add_token negated s p) (add_token-GoesOn negated s p h)
in_list-Rounds negated (word s) p t h =
    goes_on (word s) p (λ e. cc) (add_token negated s p) (add_token-GoesOn negated s p h)
in_list-Rounds negated (etag e) p t h =
    unfold add_item in add-IsParser negated (IfItem.etag e) p t h
in_list-Rounds negated list_open p t h = at_state p bad h
in_list-Rounds negated list_close p t h =
    goes_on list_close p (λ e. cc) (close p.cur_list.conditions p)
      (close-GoesOn p.cur_list.conditions p refl h)
in_list-Rounds negated end p t h = (at_state p bad h, refl)

-- Each round keeps the lists in order, whatever the token.
pub step-Rounds :
    (parse_url : Bytes → Option Bytes) (s : IfState) (tok : IfToken) (p : Parser)
    → IsToken tok
    → IsParser p
    → Ensures (IsRound tok p) (step parse_url s tok p)
unfolding step
step-Rounds parse_url start tok p t h = at_start-Rounds parse_url tok p h
step-Rounds parse_url rtag tok p t h = at_rtag-Rounds tok p h
step-Rounds parse_url list tok p t h = in_list-Rounds false tok p t h
step-Rounds parse_url negation tok p t h = in_list-Rounds true tok p t h
step-Rounds parse_url bad tok p t h = tt

pub IsRound-stop : (tok : IfToken) (p : Parser) → IsRound tok p stop → p.if_lists ≢ []
IsRound-stop list_open p h = h
IsRound-stop list_close p h = h
IsRound-stop not_ p h = h
IsRound-stop (word s) p h = h
IsRound-stop (pointy s) p h = h
IsRound-stop (etag e) p h = h
IsRound-stop end p h = h

pub IsRound-go :
    (tok : IfToken) (p q : Parser) → IsRound tok p (go q) → IsParser q × (tok ≡ end → q.state ≡ bad)
IsRound-go list_open p q h = (h, λ e. cc)
IsRound-go list_close p q h = (h, λ e. cc)
IsRound-go not_ p q h = (h, λ e. cc)
IsRound-go (word s) p q h = (h, λ e. cc)
IsRound-go (pointy s) p q h = (h, λ e. cc)
IsRound-go (etag e) p q h = (h, λ e. cc)
IsRound-go end p q h = (h.0, λ e. h.1)
