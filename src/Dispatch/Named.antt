-- ===== src/Dispatch/Named.antt =====
-- The methods of src/util.rs by their names.
use webdav_handler_rs.Prelude.{◌≡◌, refl, sym, ◌∙◌, list_beq, ap, [], ◌∷◌, Bytes, ok, ok-inj}
use webdav_handler_rs.Methods.{DavMethod, dav_method}

-- A method by its name.
pub method_named :
    (text name : Bytes) (m x : DavMethod)
    → dav_method text ≡ ok m
    → dav_method name ≡ ok x
    → text ≡ name
    → m ≡ x
method_named text name m x known is_x same = ok-inj m x (sym known ∙ ap dav_method same ∙ is_x)

pub is_options :
    dav_method (b'O' ∷ b'P' ∷ b'T' ∷ b'I' ∷ b'O' ∷ b'N' ∷ b'S' ∷ []) ≡ ok DavMethod.options
unfolding dav_method list_beq
is_options = refl

pub is_head : dav_method (b'H' ∷ b'E' ∷ b'A' ∷ b'D' ∷ []) ≡ ok DavMethod.head
unfolding dav_method list_beq
is_head = refl

pub is_get : dav_method (b'G' ∷ b'E' ∷ b'T' ∷ []) ≡ ok DavMethod.get
unfolding dav_method list_beq
is_get = refl

pub is_put : dav_method (b'P' ∷ b'U' ∷ b'T' ∷ []) ≡ ok DavMethod.put
unfolding dav_method list_beq
is_put = refl

pub is_patch : dav_method (b'P' ∷ b'A' ∷ b'T' ∷ b'C' ∷ b'H' ∷ []) ≡ ok DavMethod.patch
unfolding dav_method list_beq
is_patch = refl

pub is_prop_find :
    dav_method (b'P' ∷ b'R' ∷ b'O' ∷ b'P' ∷ b'F' ∷ b'I' ∷ b'N' ∷ b'D' ∷ []) ≡ ok DavMethod.prop_find
unfolding dav_method list_beq
is_prop_find = refl

pub is_prop_patch :
    dav_method (b'P' ∷ b'R' ∷ b'O' ∷ b'P' ∷ b'P' ∷ b'A' ∷ b'T' ∷ b'C' ∷ b'H' ∷ [])
    ≡ ok DavMethod.prop_patch
unfolding dav_method list_beq
is_prop_patch = refl

pub is_mk_col : dav_method (b'M' ∷ b'K' ∷ b'C' ∷ b'O' ∷ b'L' ∷ []) ≡ ok DavMethod.mk_col
unfolding dav_method list_beq
is_mk_col = refl

pub is_copy : dav_method (b'C' ∷ b'O' ∷ b'P' ∷ b'Y' ∷ []) ≡ ok DavMethod.copy
unfolding dav_method list_beq
is_copy = refl

pub is_move : dav_method (b'M' ∷ b'O' ∷ b'V' ∷ b'E' ∷ []) ≡ ok DavMethod.move
unfolding dav_method list_beq
is_move = refl

pub is_delete : dav_method (b'D' ∷ b'E' ∷ b'L' ∷ b'E' ∷ b'T' ∷ b'E' ∷ []) ≡ ok DavMethod.delete
unfolding dav_method list_beq
is_delete = refl

pub is_lock : dav_method (b'L' ∷ b'O' ∷ b'C' ∷ b'K' ∷ []) ≡ ok DavMethod.lock
unfolding dav_method list_beq
is_lock = refl

pub is_unlock : dav_method (b'U' ∷ b'N' ∷ b'L' ∷ b'O' ∷ b'C' ∷ b'K' ∷ []) ≡ ok DavMethod.unlock
unfolding dav_method list_beq
is_unlock = refl
