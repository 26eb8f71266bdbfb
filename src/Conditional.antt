-- ===== src/Conditional.antt =====
-- src/conditional.rs: the conditional headers of HTTP and the If header of WebDAV. A request is its
-- method and its decoded headers. Times are nanoseconds from the epoch. The file system is its
-- `metadata`, the lock system its `check`: parameters of the functions that call them.
pub mod Lists
pub mod Codes
use webdav_handler_rs.Prelude.{
  ℕ, suc, ◌+◌, ◌*◌, ◌/◌, Bool, true, false, not, ◌&&◌, ◌||◌, Option, none, some, List, [], ◌∷◌,
  ◌++◌, Bytes, Eq, ◌==◌, nat_eq, list_eq, leb, any, if◌then◌else◌, Outcome, ok, err, panic,
  out_of_fuel, and_then, ℤ, pos, negsuc,
}
use webdav_handler_rs.Errors.{FsError}
use webdav_handler_rs.DavPath.{DavPath, get_prefix, from_str_and_prefix}
use webdav_handler_rs.DavPath.Segments.{starts_with}
use webdav_handler_rs.LockCheck.{Claim}

-- davheaders.rs: an entity tag. Only strong ones are equal to anything.
pub record ETag : Type 0 where
  pub tag : Bytes
  pub weak : Bool

unfoldable pub etag_eq : ETag → ETag → Bool
etag_eq a b = not a.weak && not b.weak && a.tag == b.tag

pub data ETagList : Type 0 where
  tags : List ETag → ETagList
  star : ETagList

pub data IfRange : Type 0 where
  etag : ETag → IfRange
  date : ℤ → IfRange

pub data IfItem : Type 0 where
  state_token : Bytes → IfItem
  etag : ETag → IfItem

pub record IfCondition : Type 0 where
  pub negated : Bool
  pub item : IfItem

-- `resource_tag` is the path of the url.
pub record IfList : Type 0 where
  pub resource_tag : Option Bytes
  pub conditions : List IfCondition

pub data Method : Type 0 where
  get head other : Method

pub record Request : Type 0 where
  pub method : Method
  pub if_match : Option ETagList
  pub if_none_match : Option ETagList
  pub if_modified_since : Option ℤ
  pub if_unmodified_since : Option ℤ
  pub if_ : Option (List IfList)

-- `modified().ok()` and `etag()` of a `DavMetaData`.
pub record Meta : Type 0 where
  pub modified : Option ℤ
  pub etag : Option Bytes

-- `ETag::from_meta`
unfoldable pub from_meta : Meta → Option ETag
from_meta m = elim m.etag [
  | none ↦ none
  | some tag ↦ some (record { tag = b'"' ∷ tag ++ b'"' ∷ []; weak = false })
]

unfoldable pub round_time : ℤ → ℤ
round_time (pos n) = pos (n / 1000000000 * 1000000000)
round_time (negsuc n) = negsuc n

-- `<=` and `==` on times.
abbrev pub time_le : ℤ → ℤ → Bool
time_le (pos m) (pos n) = leb m n
time_le (pos m) (negsuc n) = false
time_le (negsuc m) (pos n) = true
time_le (negsuc m) (negsuc n) = leb n m

abbrev pub time_eq : ℤ → ℤ → Bool
time_eq a b = time_le a b && time_le b a

unfoldable pub ifrange_match : IfRange → Option ETag → Option ℤ → Bool
unfolding round_time etag_eq
ifrange_match (IfRange.date d) tag modified = elim modified [
  | some t ↦ time_eq (round_time t) (round_time d)
  | none ↦ false
]
ifrange_match (IfRange.etag t) tag modified = elim tag [ some x ↦ etag_eq t x | none ↦ false ]

unfoldable pub etaglist_match : ETagList → Bool → Option ETag → Bool
unfolding etag_eq
etaglist_match ETagList.star exists tag = exists
etaglist_match (ETagList.tags ts) exists tag = elim tag [
  | some t ↦ any (λ x. etag_eq x t) ts
  | none ↦ false
]

abbrev pub is_some : Option Meta → Bool
is_some none = false
is_some (some m) = true

abbrev pub meta_etag : Option Meta → Option ETag
meta_etag none = none
meta_etag (some m) = from_meta m

abbrev pub meta_modified : Option Meta → Option ℤ
meta_modified none = none
meta_modified (some m) = m.modified

abbrev pub is_get_or_head : Method → Bool
is_get_or_head Method.get = true
is_get_or_head Method.head = true
is_get_or_head Method.other = false

-- The first half of `http_if_match`: does a precondition fail?
unfoldable pub precondition_fails : Request → Option Meta → Bool
unfolding etaglist_match round_time
precondition_fails req meta = elim req.if_match [
  | some r ↦ not (etaglist_match r (is_some meta) (meta_etag meta))
  | none ↦ elim req.if_unmodified_since [
    | none ↦ false
    | some r ↦ elim (meta_modified meta) [
      | none ↦ true
      | some file_modified ↦ not (time_le (round_time file_modified) (round_time r))
    ]
  ]
]

-- The second half, with its status.
unfoldable pub not_modified : Request → Option Meta → Option ℕ
unfolding etaglist_match round_time
not_modified req meta = elim req.if_none_match [
  | some r ↦
      if etaglist_match r (is_some meta) (meta_etag meta)
      then (if is_get_or_head req.method then some 304 else some 412)
      else none
  | none ↦ elim req.if_modified_since [
    | none ↦ none
    | some r ↦
        if is_get_or_head req.method
        then elim (meta_modified meta) [
          | none ↦ none
          | some file_modified ↦
              if time_le (round_time file_modified) (round_time r) then some 304 else none
        ]
        else none
  ]
]

unfoldable pub http_if_match : Request → Option Meta → Option ℕ
http_if_match req meta = if precondition_fails req meta then some 412 else not_modified req meta

abbrev pub token_claim : Bytes → Claim
token_claim s = record { principal = none; ignore_principal = true; submitted_tokens = s ∷ [] }

unfoldable pub tokens_of : List IfCondition → List Bytes
tokens_of [] = []
tokens_of (cond ∷ rest) = elim cond.item [
  | IfItem.state_token t ↦ t ∷ tokens_of rest
  | IfItem.etag tag ↦ tokens_of rest
]

module _ {E L : Type 0} (percent_decode : Bytes → Bytes) (metadata : DavPath → Outcome FsError Meta)
    (check : Option (DavPath → Claim → Bool → Outcome L (Unit {0}))) where
  -- `.is_ok()`
  abbrev pub is_ok : Outcome L (Unit {0}) → Outcome E Bool
  is_ok (ok _) = ok true
  is_ok (err _) = ok false
  is_ok panic = panic
  is_ok out_of_fuel = out_of_fuel

  unfoldable pub condition_ok : DavPath → Bool → IfItem → Outcome E Bool
  condition_ok p valid (IfItem.state_token s) =
      if not valid || starts_with s (b'D' ∷ b'A' ∷ b'V' ∷ b':' ∷ [])
      then ok false
      else elim check [ some ls ↦ is_ok (ls p (token_claim s) false) | none ↦ ok false ]
  condition_ok p valid (IfItem.etag tag) = if not valid then ok false else elim (metadata p) [
    | ok meta ↦ elim (from_meta meta) [ some mtag ↦ ok (etag_eq tag mtag) | none ↦ ok false ]
    | err _ ↦ ok false
    | panic ↦ panic
    | out_of_fuel ↦ out_of_fuel
  ]

  -- The loop over the conditions, with `list_ok`.
  unfoldable pub conditions_ok : DavPath → Bool → Bool → List IfCondition → Outcome E Bool
  unfolding condition_ok
  conditions_ok p valid list_ok [] = ok list_ok
  conditions_ok p valid list_ok (cond ∷ rest) = and_then (condition_ok p valid cond.item) λ cond_ok.
      if (if cond_ok then cond.negated else not cond.negated)
      then ok false
      else conditions_ok p valid true rest

  -- The resource that a list is about, and whether it is a valid one.
  unfoldable pub list_resource : DavPath → IfList → Outcome E (DavPath × Bool)
  list_resource path iflist = elim iflist.resource_tag [
    | none ↦ ok (path, true)
    | some url ↦ and_then (get_prefix path) λ prefix.
        elim (from_str_and_prefix percent_decode url prefix) [
          | ok p ↦ ok (p, true)
          | err _ ↦ ok (path, false)
          | panic ↦ panic
          | out_of_fuel ↦ out_of_fuel
        ]
  ]

  unfoldable pub list_ok : DavPath → IfList → Outcome E Bool
  unfolding list_resource conditions_ok
  list_ok path iflist =
      and_then (list_resource path iflist) λ r. conditions_ok r.0 r.1 false iflist.conditions

  -- The loop over the lists, with `any_list_ok` and `tokens`.
  unfoldable pub lists_ok :
      DavPath → Bool → List Bytes → List IfList → Outcome E (Bool × List Bytes)
  unfolding list_ok tokens_of
  lists_ok path any_list_ok tokens [] = ok (any_list_ok, tokens)
  lists_ok path any_list_ok tokens (iflist ∷ rest) =
      let tokens' = tokens ++ tokens_of iflist.conditions in
      if any_list_ok
      then lists_ok path true tokens' rest
      else and_then (list_ok path iflist) λ o. lists_ok path o tokens' rest

  unfoldable pub dav_if_match : Request → DavPath → Outcome E (Bool × List Bytes)
  unfolding lists_ok
  dav_if_match req path = elim req.if_ [ none ↦ ok (true, []) | some r ↦ lists_ok path false [] r ]

  unfoldable pub if_match : Request → Option Meta → DavPath → Outcome E (Option ℕ)
  unfolding dav_if_match http_if_match
  if_match req meta path =
      and_then (dav_if_match req path)
        λ r. if r.0 then ok (http_if_match req meta) else ok (some 412)

-- The errors are status codes, of the tests and of the lists alike.
unfoldable pub if_match_get_tokens :
    {L : Type 0}
    → (percent_decode : Bytes → Bytes) (metadata : DavPath → Outcome FsError Meta)
      (check : Option (DavPath → Claim → Bool → Outcome L (Unit {0})))
    → Request
    → Option Meta
    → DavPath
    → Outcome ℕ (List Bytes)
unfolding dav_if_match http_if_match
if_match_get_tokens percent_decode metadata check req meta path = elim (http_if_match req meta) [
  | some code ↦ err code
  | none ↦
      and_then (dav_if_match percent_decode metadata check req path)
        λ r. if r.0 then ok r.1 else err 412
]
