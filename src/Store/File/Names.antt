-- ===== src/Store/File/Names.antt =====
-- filestore.go: the names of the files, and the keys in them.
use paho_mqtt_golang.Base.{
  ℕ, ◌-◌, ◌≡◌, ◌≢◌, ◌↔◌, refl, sym, ap, ◌∙◌, List, [], ◌∷◌, ◌++◌, Bytes, some, length,
  length-append, drop, take-append-drop, take-length_append, drop-length_append, str_eq_iff, Listed,
  arith,
}
use paho_mqtt_golang.Store.File.{msg_ext, fullpath, tmppath, corruptpath, cut_ext, message_keys}

abbrev last_of : Bytes → ℕ
last_of [] = 0
last_of (c ∷ []) = c
last_of (c ∷ d ∷ s) = last_of (d ∷ s)

last_of-append : (s t : Bytes) (c : ℕ) → last_of (s ++ (c ∷ t)) ≡ last_of (c ∷ t)
last_of-append [] t c = refl
last_of-append (x ∷ []) t c = refl
last_of-append (x ∷ y ∷ s) t c = last_of-append (y ∷ s) t c

pub tmp_not_msg : (a b : Bytes) → tmppath a ≢ fullpath b
unfolding tmppath fullpath
tmp_not_msg a b e = ground (
  arith,
  ap last_of e,
  last_of-append a (116 ∷ 109 ∷ 112 ∷ []) 46,
  last_of-append b (109 ∷ 115 ∷ 103 ∷ []) 46,
)

pub corrupt_not_msg : (a b : Bytes) → corruptpath a ≢ fullpath b
unfolding corruptpath fullpath
corrupt_not_msg a b e = ground (
  arith,
  ap last_of e,
  last_of-append a (67 ∷ 79 ∷ 82 ∷ 82 ∷ 85 ∷ 80 ∷ 84 ∷ []) 46,
  last_of-append b (109 ∷ 115 ∷ 103 ∷ []) 46,
)

pub cut_ext-fullpath : (key : Bytes) → cut_ext (fullpath key) ≡ some key
unfolding cut_ext fullpath
cut_ext-fullpath key = ground (
  arith,
  length-append key msg_ext,
  take-length_append key msg_ext,
  drop-length_append key msg_ext,
  str_eq_iff msg_ext msg_ext,
)

pub cut_ext-some : (name key : Bytes) → cut_ext name ≡ some key → name ≡ fullpath key
unfolding cut_ext fullpath
cut_ext-some name key h = ground (
  arith,
  take-append-drop (length name - 4) name,
  str_eq_iff (drop (length name - 4) name) msg_ext,
)

pub fullpath_injective : (a b : Bytes) → fullpath a ≡ fullpath b → a ≡ b
fullpath_injective a b e =
    let same : some a ≡ some b = sym (cut_ext-fullpath a) ∙ (ap cut_ext e ∙ cut_ext-fullpath b) in
    ground (arith, same)

-- The keys among names are those whose message file is among them.
pub Listed-message_keys :
    (names : List Bytes) (key : Bytes)
    → Listed key (message_keys names) ↔ Listed (fullpath key) names
unfolding message_keys
Listed-message_keys [] key = ground arith
Listed-message_keys (name ∷ names) key =
    ground (arith, Listed-message_keys names key, cut_ext-fullpath key, cut_ext-some name key)
