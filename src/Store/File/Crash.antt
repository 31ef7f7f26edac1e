-- ===== src/Store/File/Crash.antt =====
-- filestore.go, write: what a crash in the middle of it leaves.
use paho_mqtt_golang.Base.{
  ℕ, zero, suc, ◌≡◌, ◌⊎◌, inl, inr, refl, ◌∙◌, [], Bytes, some, if◌then◌else◌, take, arith, str_eq,
}
use paho_mqtt_golang.Base.Assoc.{lookup, insert, bytes_eq, lookup-insert}
use paho_mqtt_golang.Store.File.{File, Directory, fullpath, tmppath, call, calls, write_calls}
use paho_mqtt_golang.Store.File.Laws.{tmp_eq, lookup-calls}

-- The file that a name leads to is not touched by a call on the temporary file.
lookup-insert_tmp :
    (key j : Bytes) (f : File) (d : Directory)
    → lookup (fullpath j) (insert (tmppath key) f d) ≡ lookup (fullpath j) d
lookup-insert_tmp key j f d =
    ground (arith, lookup-insert (tmppath key) (fullpath j) f d, tmp_eq key j)

-- Wherever `write` is cut short between two calls, either every message file is as it was, or the
-- one of the key holds all of the message and every other one is as it was: no part of a message is
-- ever under a key.
pub write_is_atomic :
    (n now : ℕ) (key bytes : Bytes) (d : Directory)
    → ((j : Bytes)
        → lookup (fullpath j) (calls now (take n (write_calls key bytes)) d)
          ≡ lookup (fullpath j) d)
      ⊎ ((j : Bytes)
          → lookup (fullpath j) (calls now (take n (write_calls key bytes)) d) ≡ (
              if str_eq key j
              then some (record { mod_time = now; contents = bytes })
              else lookup (fullpath j) d))
unfolding calls call
write_is_atomic zero now key bytes d = inl (λ j. refl)
write_is_atomic (suc zero) now key bytes d = inl (λ j. lookup-insert_tmp key j _ d)
write_is_atomic (suc (suc zero)) now key bytes d =
    let begun = insert (tmppath key) (record { mod_time = now; contents = [] }) d in
    inl (λ j. lookup-insert_tmp key j _ begun ∙ lookup-insert_tmp key j _ d)
write_is_atomic (suc (suc (suc zero))) now key bytes d = inr (λ j. lookup-calls now key j bytes d)
write_is_atomic (suc (suc (suc (suc n)))) now key bytes d =
    inr (λ j. lookup-calls now key j bytes d)
