-- ===== src/Store/File/Delete.antt =====
-- filestore.go: what All lists, and what Del and Reset take away.
use paho_mqtt_golang.Base.{
  ◌≡◌, ◌≢◌, ◌↔◌, refl, ap, ◌∙◌, inl, inr, List, [], ◌∷◌, Bytes, true, none, if◌then◌else◌,
  Option-cases, str_eq, str_eq_iff, Listed, arith,
}
use paho_mqtt_golang.Base.Assoc.{lookup, bytes_eq, lookup-delete}
use paho_mqtt_golang.Store.Memory.{keys}
use paho_mqtt_golang.Store.Memory.Refines.{keys_lem}
use paho_mqtt_golang.Store.Ordered.{sort_by_time, second}
use paho_mqtt_golang.Store.Ordered.Sorting.{Listed-sort_by_time}
use paho_mqtt_golang.Store.File.{Directory, FileStore, fullpath, times, all, del, del_keys, reset}
use paho_mqtt_golang.Store.File.Names.{Listed-message_keys}
use paho_mqtt_golang.Store.File.Laws.{message_in, contents, path_eq, message_in-none}

second-times : (d : Directory) → second (times d) ≡ keys d
second-times [] = refl
second-times ((name, f) ∷ d) = ap (λ ks. name ∷ ks) (second-times d)

-- With an open store, All lists exactly the keys whose message file is in the directory.
pub Listed-all :
    (st : FileStore) (key : Bytes)
    → st.opened ≡ true
    → Listed key (all st) ↔ (lookup (fullpath key) st.directory ≢ none)
unfolding all
Listed-all st key o =
    let names = second (sort_by_time (times st.directory)) in
    let sorted : Listed (fullpath key) names ↔ Listed (fullpath key) (keys st.directory) =
      rw⁻¹ (second-times st.directory) (Listed-sort_by_time (times st.directory) (fullpath key)) in
    rw o
      (ground (arith, Listed-message_keys names key, sorted, keys_lem st.directory (fullpath key)))

lookup-del :
    (key j : Bytes) (st : FileStore)
    → st.opened ≡ true
    → (lookup (fullpath j) (del key st).directory
        ≡ (if str_eq key j then none else lookup (fullpath j) st.directory))
      × ((del key st).opened ≡ true)
unfolding del
lookup-del key j st o =
    rw o
      (ground (arith, lookup-delete (fullpath key) (fullpath j) st.directory, path_eq key j), refl)

-- Deleting keys takes away their message files and brings none back.
lookup-del_keys :
    (ks : List Bytes) (j : Bytes) (st : FileStore)
    → st.opened ≡ true
    → (Listed j ks → lookup (fullpath j) (del_keys ks st).directory ≡ none)
      × (lookup (fullpath j) st.directory ≡ none
          → lookup (fullpath j) (del_keys ks st).directory ≡ none)
      × ((del_keys ks st).opened ≡ true)
unfolding del_keys
lookup-del_keys [] j st o = (λ l. absurd l, λ e. e, o)
lookup-del_keys (key ∷ ks) j st o =
    let (gone, opened) = lookup-del key j st o in
    let (taken, kept, still) = lookup-del_keys ks j (del key st) opened in
    (
      λ l. ground (arith, l, gone, taken, kept, str_eq_iff key j),
      λ e. kept (ground (arith, gone, e)),
      still,
    )

-- With an open store, Del takes away the packet of its key and of no other, and Reset that of every
-- key; both leave the store open.
pub del_and_reset_lem :
    (key j : Bytes) (st : FileStore)
    → st.opened ≡ true
    → (contents (del key st) j ≡ (if str_eq key j then none else contents st j))
      × ((del key st).opened ≡ true)
      × (contents (reset st) j ≡ none)
      × ((reset st).opened ≡ true)
unfolding reset
del_and_reset_lem key j st o =
    let (gone, opened) = lookup-del key j st o in
    let (taken, kept, still) = lookup-del_keys (all st) j st o in
    let empty : lookup (fullpath j) (del_keys (all st) st).directory ≡ none =
      elim (Option-cases (lookup (fullpath j) st.directory)) [
        | inl e ↦ kept e
        | inr (f, e) ↦ taken ((Listed-all st j o).1 (λ n. ground (arith, n, e)))
      ] in
    (
      ap message_in gone ∙ message_in-none (str_eq key j) (lookup (fullpath j) st.directory),
      opened,
      ap message_in empty,
      still,
    )
