-- ===== src/Store/File/Laws.antt =====
-- filestore.go: the directory as a map from keys to packets.
use paho_mqtt_golang.Base.{
  ℕ, ◌≡◌, refl, sym, ap, ◌∙◌, inl, inr, [], ◌++◌, Bytes, Bool, true, false, Option, none, some,
  if◌then◌else◌, Bool-cases, str_eq, str_eq_iff, arith, append-nil,
}
use paho_mqtt_golang.Base.Assoc.{lookup, insert, delete, bytes_eq, lookup-insert, lookup-delete}
use paho_mqtt_golang.Packets.Result.{ok}
use paho_mqtt_golang.Packets.Packet.{ControlPacket}
use paho_mqtt_golang.Packets.Write.{write}
use paho_mqtt_golang.Packets.Read.{packet, read_packet}
use paho_mqtt_golang.Packets.RoundTrip.{IsWritable, read_packet-write}
use paho_mqtt_golang.Store.File.{
  File, Directory, FileStore, fullpath, tmppath, corruptpath, call, calls, write_calls, bytes_of,
  moved, put, read_message, archived, get_file, get,
}
use paho_mqtt_golang.Store.File.Names.{tmp_not_msg, corrupt_not_msg, fullpath_injective}

abbrev pub message_in : Option File → Option ControlPacket
message_in none = none
message_in (some f) = read_message f.contents

-- The packet that a key stands for.
abbrev pub contents : FileStore → Bytes → Option ControlPacket
contents st key = message_in (lookup (fullpath key) st.directory)

pub path_eq : (a b : Bytes) → str_eq (fullpath a) (fullpath b) ≡ str_eq a b
path_eq a b = ground (
  arith,
  str_eq_iff (fullpath a) (fullpath b),
  str_eq_iff a b,
  fullpath_injective a b,
  ap_path a b,
)
  where
    ap_path : (a b : Bytes) → a ≡ b → fullpath a ≡ fullpath b
    ap_path a b e = ap fullpath e

pub tmp_eq : (a b : Bytes) → str_eq (tmppath a) (fullpath b) ≡ false
tmp_eq a b = ground (arith, str_eq_iff (tmppath a) (fullpath b), tmp_not_msg a b)

corrupt_eq : (a b : Bytes) → str_eq (corruptpath a) (fullpath b) ≡ false
corrupt_eq a b = ground (arith, str_eq_iff (corruptpath a) (fullpath b), corrupt_not_msg a b)

-- What a name leads to after a file was moved to a name and away from one that is no message file.
lookup-moved :
    (from : Bytes) (key j : Bytes) (f : File) (d : Directory)
    → str_eq from (fullpath j) ≡ false
    → lookup (fullpath j) (moved from (fullpath key) (some f) d)
      ≡ (if str_eq key j then some f else lookup (fullpath j) d)
lookup-moved from key j f d other = ground (
  arith,
  lookup-insert (fullpath key) (fullpath j) f (delete from d),
  lookup-delete from (fullpath j) d,
  path_eq key j,
)

-- After the calls of `write`, the message file of the key holds the bytes, and no other message file
-- has changed.
pub lookup-calls :
    (now : ℕ) (key j bytes : Bytes) (d : Directory)
    → lookup (fullpath j) (calls now (write_calls key bytes) d) ≡ (
        if str_eq key j
        then some (record { mod_time = now; contents = bytes })
        else lookup (fullpath j) d)
unfolding calls call
lookup-calls now key j bytes d =
    let tmp = tmppath key in
    let empty : File = record { mod_time = now; contents = [] } in
    let d1 = insert tmp empty d in
    let at1 = lookup-insert tmp tmp empty d in
    let full : File = record { mod_time = now; contents = bytes_of (lookup tmp d1) ++ bytes } in
    let d2 = insert tmp full d1 in
    let at2 = lookup-insert tmp tmp full d1 in
    let self = (str_eq_iff tmp tmp).1 refl in
    let found : lookup tmp d2 ≡ some full = ground (arith, at2, self) in
    let begun : lookup tmp d1 ≡ some empty = ground (arith, at1, self) in
    rw found (
      lookup-moved tmp key j full d2 (tmp_eq key j)
      ∙ ground (
        arith,
        begun,
        tmp_eq key j,
        lookup-insert tmp (fullpath j) full d1,
        lookup-insert tmp (fullpath j) empty d,
      ))

pub message_in-none :
    (b : Bool) (o : Option File)
    → message_in (if b then none else o) ≡ (if b then none else message_in o)
message_in-none true o = refl
message_in-none false o = refl

message_in-if :
    (b : Bool) (now : ℕ) (bytes : Bytes) (m : ControlPacket) (o : Option File)
    → read_message bytes ≡ some m
    → message_in (if b then some (record { mod_time = now; contents = bytes }) else o)
      ≡ (if b then some m else message_in o)
message_in-if true now bytes m o e = e
message_in-if false now bytes m o e = refl

-- With an open store: a packet that has a place on the wire and that `Write` can encode is put under
-- its key, from which it is read as `Write` left it; no other key changes, and the store stays open.
pub put_lem :
    (now : ℕ) (key : Bytes) (m : ControlPacket) (bytes : Bytes) (st : FileStore)
    → st.opened ≡ true
    → IsWritable m
    → (write m).1 ≡ ok bytes
    → (st' : FileStore) × (put now key m st ≡ some st')
      × (st'.opened ≡ true)
      × ((j : Bytes) → contents st' j ≡ (if str_eq key j then some (write m).0 else contents st j))
unfolding put read_message
put_lem now key m bytes st o w e =
    let d = calls now (write_calls key bytes) st.directory in
    let read : read_packet bytes ≡ packet (write m).0 none [] =
      ap read_packet (sym (append-nil bytes)) ∙ read_packet-write m bytes [] w e in
    (
      record st { directory = d },
      rw (put, e, o) refl,
      o,
      λ j.
          ap message_in (lookup-calls now key j bytes st.directory)
          ∙ message_in-if (str_eq key j) now bytes (write m).0 (lookup (fullpath j) st.directory)
              (rw (read_message, read) refl),
    )

lookup-archived :
    (key j : Bytes) (f : File) (d : Directory)
    → lookup (fullpath key) d ≡ some f
    → lookup (fullpath j) (moved (fullpath key) (corruptpath key) (lookup (fullpath key) d) d)
      ≡ (if str_eq key j then none else lookup (fullpath j) d)
lookup-archived key j f d held = rw held (
    ground (
      arith,
      corrupt_eq key j,
      path_eq key j,
      lookup-insert (corruptpath key) (fullpath j) f (delete (fullpath key) d),
      lookup-delete (fullpath key) (fullpath j) d,
    ))

-- Nothing is lost where the file that is moved aside could not be read.
contents-archived :
    (key j : Bytes) (f : File) (st : FileStore)
    → lookup (fullpath key) st.directory ≡ some f
    → read_message f.contents ≡ none
    → contents (archived key none st).1 j ≡ contents st j
contents-archived key j f st held bad = elim (Bool-cases (str_eq key j)) [
  | inl same ↦
      let eq : key ≡ j = (str_eq_iff key j).0 same in
      let held_too : lookup (fullpath j) st.directory ≡ some f = rw eq at held in
      ap message_in (lookup-archived key j f st.directory held) ∙ rw (same, held_too) (sym bad)
  | inr other ↦ ap message_in (lookup-archived key j f st.directory held) ∙ rw other refl
]

get_file_lem :
    (key : Bytes) (o : Option File) (st : FileStore)
    → lookup (fullpath key) st.directory ≡ o
    → ((get_file key o st).0 ≡ message_in o)
      × ((get_file key o st).1.opened ≡ st.opened)
      × ((j : Bytes) → contents (get_file key o st).1 j ≡ contents st j)
get_file_lem key none st held = (refl, refl, λ j. refl)
get_file_lem key (some f) st held = go (read_message f.contents) refl
  where
    go :
        (o : Option ControlPacket)
        → read_message f.contents ≡ o
        → ((archived key o st).0 ≡ o)
          × ((archived key o st).1.opened ≡ st.opened)
          × ((j : Bytes) → contents (archived key o st).1 j ≡ contents st j)
    go (some m) e = (refl, refl, λ j. refl)
    go none e = (refl, refl, λ j. contents-archived key j f st held e)

get_open :
    (key : Bytes) (st : FileStore)
    → st.opened ≡ true
    → get key st ≡ get_file key (lookup (fullpath key) st.directory) st
unfolding get
get_open key st o =
    ap (λ b. if b then get_file key (lookup (fullpath key) st.directory) st else (none, st)) o

-- With an open store, Get returns the packet that the key stands for, nil if there is none, and where
-- it moves a file aside that cannot be read, every key still stands for what it stood for.
pub get_lem :
    (key : Bytes) (st : FileStore)
    → st.opened ≡ true
    → ((get key st).0 ≡ contents st key)
      × ((get key st).1.opened ≡ true)
      × ((j : Bytes) → contents (get key st).1 j ≡ contents st j)
get_lem key st o =
    let (value, opened, same) = get_file_lem key (lookup (fullpath key) st.directory) st refl in
    rw (get_open key st o) (value, opened ∙ o, same)
