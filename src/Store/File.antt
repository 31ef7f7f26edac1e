-- ===== src/Store/File.antt =====
-- filestore.go: the store in the files of a directory.
pub mod Names
pub mod Laws
pub mod Delete
pub mod Crash
mod Tests
use paho_mqtt_golang.Base.{
  ℕ, ◌-◌, List, [], ◌∷◌, ◌++◌, Bytes, codes, Bool, true, false, not, ◌||◌, Option, none, some,
  if◌then◌else◌, ltb, length, take, drop, str_eq,
}
use paho_mqtt_golang.Base.Assoc.{lookup, insert, delete, bytes_eq}
use paho_mqtt_golang.Packets.Result.{ok, err, panic}
use paho_mqtt_golang.Packets.Packet.{ControlPacket}
use paho_mqtt_golang.Packets.Write.{write}
use paho_mqtt_golang.Packets.Read.{no_packet, packet, read_packet}
use paho_mqtt_golang.Store.Ordered.{sort_by_time, second}

-- A file: the time of its last change, and its bytes.
pub record File : Type 0 where
  pub mod_time : ℕ
  pub contents : Bytes

-- The entries of the directory by their names.
abbrev pub Directory : Type 0
Directory = List (Bytes × File)

pub record FileStore : Type 0 where
  pub directory : Directory
  pub opened : Bool

abbrev pub msg_ext : Bytes
msg_ext = codes ".msg"

abbrev pub tmp_ext : Bytes
tmp_ext = codes ".tmp"

abbrev pub corrupt_ext : Bytes
corrupt_ext = codes ".CORRUPT"

-- Names are relative to the directory of the store. `path.Join` cleans a name as well, which changes
-- nothing in one without a slash that is not a dot segment, as every key of the client is.
unfoldable pub fullpath : Bytes → Bytes
fullpath key = key ++ msg_ext

unfoldable pub tmppath : Bytes → Bytes
tmppath key = key ++ tmp_ext

unfoldable pub corruptpath : Bytes → Bytes
corruptpath key = key ++ corrupt_ext

-- The calls of the file system that a write makes.
pub data FileCall : Type 0 where
  create : Bytes → FileCall
  append : Bytes → Bytes → FileCall
  rename : Bytes → Bytes → FileCall

-- A new name takes the place of a file that has it.
abbrev pub moved : Bytes → Bytes → Option File → Directory → Directory
moved from to none d = d
moved from to (some f) d = insert to f (delete from d)

abbrev pub bytes_of : Option File → Bytes
bytes_of none = []
bytes_of (some f) = f.contents

-- A call that succeeds at the time `now`.
unfoldable pub call : ℕ → FileCall → Directory → Directory
call now (create name) d = insert name (record { mod_time = now; contents = [] }) d
call now (append name bytes) d =
    insert name (record { mod_time = now; contents = bytes_of (lookup name d) ++ bytes }) d
call now (rename from to) d = moved from to (lookup from d) d

unfoldable pub calls : ℕ → List FileCall → Directory → Directory
calls now [] d = d
calls now (c ∷ cs) d = calls now cs (call now c d)

-- The calls of `write` for the bytes of a message.
abbrev pub write_calls : Bytes → Bytes → List FileCall
write_calls key bytes =
    create (tmppath key) ∷ append (tmppath key) bytes ∷ rename (tmppath key) (fullpath key) ∷ []

unfoldable pub open_store : FileStore → FileStore
open_store st = record st { opened = true }

unfoldable pub close : FileStore → FileStore
close st = record st { opened = false }

-- `none` is the panic of `chkerr`, on a message that cannot be written.
unfoldable pub put : ℕ → Bytes → ControlPacket → FileStore → Option FileStore
put now key m st = elim (write m).1 [
  | ok bytes ↦ some (
      if st.opened
      then record st { directory = calls now (write_calls key bytes) st.directory }
      else st)
  | err e ↦ if st.opened then none else some st
  | panic ↦ if st.opened then none else some st
]

-- The message of a file, which is nil where its bytes cannot be read; then the file is moved aside.
unfoldable pub read_message : Bytes → Option ControlPacket
read_message contents = elim (read_packet contents) [
  | packet msg none rest ↦ some msg
  | packet msg (some e) rest ↦ none
  | no_packet e ↦ none
]

abbrev pub archived : Bytes → Option ControlPacket → FileStore → Option ControlPacket × FileStore
archived key (some msg) st = (some msg, st)
archived key none st =
    let d = st.directory in
    (
      none,
      record st { directory = moved (fullpath key) (corruptpath key) (lookup (fullpath key) d) d },
    )

abbrev pub get_file : Bytes → Option File → FileStore → Option ControlPacket × FileStore
get_file key none st = (none, st)
get_file key (some f) st = archived key (read_message f.contents) st

unfoldable pub get : Bytes → FileStore → Option ControlPacket × FileStore
get key st = if st.opened then get_file key (lookup (fullpath key) st.directory) st else (none, st)

abbrev pub times : Directory → List (ℕ × Bytes)
times [] = []
times ((name, f) ∷ d) = (f.mod_time, name) ∷ times d

-- A name without the extension of a message, if it has it.
unfoldable pub cut_ext : Bytes → Option Bytes
cut_ext name =
    if ltb (length name) 4 || not (str_eq (drop (length name - 4) name) msg_ext)
    then none
    else some (take (length name - 4) name)

abbrev pub cons_some : Option Bytes → List Bytes → List Bytes
cons_some none keys = keys
cons_some (some key) keys = key ∷ keys

unfoldable pub message_keys : List Bytes → List Bytes
message_keys [] = []
message_keys (name ∷ names) = cons_some (cut_ext name) (message_keys names)

unfoldable pub all : FileStore → List Bytes
all st = if st.opened then message_keys (second (sort_by_time (times st.directory))) else []

unfoldable pub del : Bytes → FileStore → FileStore
del key st = if st.opened then record st { directory = delete (fullpath key) st.directory } else st

unfoldable pub del_keys : List Bytes → FileStore → FileStore
del_keys [] st = st
del_keys (key ∷ keys) st = del_keys keys (del key st)

unfoldable pub reset : FileStore → FileStore
reset st = del_keys (all st) st
