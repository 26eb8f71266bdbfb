-- ===== src/DavHeaders/If.antt =====
-- The state machine of the header If in src/davheaders.rs. `Url::parse` is the parameter
-- `parse_url`: the path of the url.
pub mod Rounds
pub mod Sound
pub mod Written
pub mod RoundTrip
pub mod Unclosed
use webdav_handler_rs.Prelude.{
  ℕ, zero, suc, ◌+◌, Bool, true, false, not, Option, none, some, List, [], ◌∷◌, ◌++◌, Bytes, length,
  any, if◌then◌else◌, Outcome, ok, err, panic, out_of_fuel, and_then,
}
use webdav_handler_rs.Text.{contains}
use webdav_handler_rs.Conditional.{IfList, IfCondition, IfItem, state_token}
use webdav_handler_rs.DavHeaders.{HeaderError, invalid, one}
use webdav_handler_rs.DavHeaders.Scanner.{
  IfToken, list_open, list_close, not_, word, pointy, etag, end, get_token,
}

pub data IfState : Type 0 where
  start rtag list negation bad : IfState

-- The variables of the loop: `state`, `if_lists` and `cur_list`.
pub record Parser : Type 0 where
  pub state : IfState
  pub if_lists : List IfList
  pub cur_list : IfList

-- `IfList::new`
abbrev pub new_list : IfList
new_list = record { resource_tag = none; conditions = [] }

-- `IfList::add`
unfoldable pub add : Bool → IfItem → IfList → IfList
add negated item l = record l {
  conditions = l.conditions ++ record { negated = negated; item = item } ∷ [];
}

abbrev pub initial : Parser
initial = record { state = start; if_lists = []; cur_list = new_list }

-- One round ends the loop (`break`), or goes on.
pub data Round : Type 0 where
  stop : Round
  go : Parser → Round

abbrev pub go_bad : Parser → Outcome HeaderError Round
go_bad p = ok (go (record p { state = bad }))

-- The url in front of a list, if it parses.
unfoldable pub tag_list : Option Bytes → Parser → Outcome HeaderError Round
tag_list none p = err invalid
tag_list (some u) p = ok (
    go (record p { state = rtag; cur_list = record (Parser.cur_list p) { resource_tag = some u } }))

-- The end of the input: `break` if there are lists.
unfoldable pub at_end : List IfList → Parser → Outcome HeaderError Round
at_end [] p = go_bad p
at_end (l ∷ ls) p = ok stop

-- A closing bracket, by the conditions of the list.
unfoldable pub close : List IfCondition → Parser → Outcome HeaderError Round
close [] p = go_bad p
close (c ∷ cs) p = ok (
    go (record {
      state = start;
      if_lists = Parser.if_lists p ++ Parser.cur_list p ∷ [];
      cur_list = new_list;
    }))

unfoldable pub at_rtag : IfToken → Parser → Outcome HeaderError Round
at_rtag list_open p = ok (go (record p { state = list }))
at_rtag _ p = go_bad p

-- A condition, which goes on with the list.
unfoldable pub add_item : Bool → IfItem → Parser → Outcome HeaderError Round
unfolding add
add_item negated item p =
    ok (go (record p { state = list; cur_list = add negated item p.cur_list }))

unfoldable pub add_token : Bool → Bytes → Parser → Outcome HeaderError Round
unfolding add_item
add_token negated stok p =
    if contains stok b':' then add_item negated (state_token stok) p else go_bad p

-- In a list, behind a `Not` or not.
unfoldable pub in_list : Bool → IfToken → Parser → Outcome HeaderError Round
unfolding add_token close
in_list negated not_ p = if negated then go_bad p else ok (go (record p { state = negation }))
in_list negated (pointy stok) p = add_token negated stok p
in_list negated (word stok) p = add_token negated stok p
in_list negated (etag e) p = add_item negated (IfItem.etag e) p
in_list negated list_close p = close p.cur_list.conditions p
in_list negated _ p = go_bad p

module _ (parse_url : Bytes → Option Bytes) where
  unfoldable pub at_start : IfToken → Parser → Outcome HeaderError Round
  unfolding tag_list at_end
  at_start list_open p = ok (go (record p { state = list }))
  at_start (pointy url) p = tag_list (parse_url url) p
  at_start end p = at_end p.if_lists p
  at_start _ p = go_bad p

  unfoldable pub step : IfState → IfToken → Parser → Outcome HeaderError Round
  unfolding at_start at_rtag in_list
  step start tok p = at_start tok p
  step rtag tok p = at_rtag tok p
  step list tok p = in_list false tok p
  step negation tok p = in_list true tok p
  step bad tok p = err invalid

  -- The loop; each round takes one token.
  unfoldable pub run : ℕ → Parser → Bytes → Outcome HeaderError (List IfList)
  unfolding step
  run zero p input = out_of_fuel
  run (suc fuel) p input = and_then (get_token input) λ t.
      and_then (step p.state t.0 p) λ r. elim r [ stop ↦ ok p.if_lists | go q ↦ run fuel q t.1 ]

  -- Each round but the last two takes a byte of the input at least.
  unfoldable pub decode : List Bytes → Outcome HeaderError (List IfList)
  unfolding one run
  decode values = and_then (one values) λ v. run (length v + 2) initial v

unfoldable pub encode : List IfList → List Bytes
encode lists =
    (b'[' ∷ b'I' ∷ b'f' ∷ b' ' ∷ b'h' ∷ b'e' ∷ b'a' ∷ b'd' ∷ b'e' ∷ b'r' ∷ b']' ∷ []) ∷ []
