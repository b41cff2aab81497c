-- ===== src/Runs/States.antt =====
-- Runs of session_manager.cpp, group_manager.cpp, group_directory.cpp and offline_storage.cpp.
use e2ee_windows.Common.{
  ℕ, ◌+◌, ◌*◌, ◌%◌, ◌^◌, ◌<◌, ◌≡◌, refl, Bool, true, false, ◌&&◌, some, none, List, [], ◌∷◌, Bytes,
  arith, text, replicate, done, ok, err, if◌then◌else◌,
}
use e2ee_windows.Common.Text.{same}
use e2ee_windows.Common.Dict.{find, put, erase, or_default, IsUnique}
use e2ee_windows.Pake.{DerivedKeys, derive_keys_from_credentials}
use e2ee_windows.Pake.Derive.{IsKeys, derive_keys_from_credentials-IsKeys}
use e2ee_windows.Auth.{AuthProvider}
use e2ee_windows.Session.{
  Session, SessionManager, login, open_session, validate, cleanup, hex_string,
}
use e2ee_windows.Session.View.{live}
use e2ee_windows.Session.Login.{IsTable}
use e2ee_windows.Session.Reach.{make_manager, Step, Reach, Reach-cleanup}
use e2ee_windows.Group.{GroupKey, GroupState, GroupManager, RotationReason, empty_state, make_key}
use e2ee_windows.Group.Rotation.{on_messages, on_messages_rounds}
use e2ee_windows.Directory.{GroupDirectory}
use e2ee_windows.Queue.{OfflineQueue}
use e2ee_windows.Storage.{OfflineStorage, Draw, PutOk, put_file, fetch, meta}
use e2ee_windows.Storage.Files.{fetch-put_file}

abbrev alice : Bytes
alice = text "alice"

abbrev bob : Bytes
bob = text "bob"

-- A backend that knows one user.
abbrev provider : AuthProvider
provider = record {
  validate =
      λ u p. if same u alice && same p (text "secret") then none else some (text "bad credentials");
  user_exists = λ u. if same u alice then none else some (text "user not found");
}

-- The keys that the credentials give.
given :
    (k : DerivedKeys) × (derive_keys_from_credentials alice (text "secret") ≡ done (ok k))
    × IsKeys k
given =
    derive_keys_from_credentials-IsKeys alice (text "secret") (omega arith) (omega arith)
      (omega arith)

abbrev manager : SessionManager
manager = record { auth = some provider; ttl = 10; sessions = [] }

abbrev session : Session
session = record {
  token = hex_string (5 ∷ 9 ∷ []);
  username = alice;
  keys = given.0;
  created_at = 3;
}

abbrev busy : SessionManager
busy = record manager { sessions = put session.token session [] }

busy_made : login manager alice (text "secret") 3 (5 ∷ 9 ∷ []) ≡ done (busy, ok session)
unfolding login validate open_session same put erase hex_string
busy_made = rw given.1 refl

reached : Reach (make_manager provider 10) busy
unfolding make_manager
reached =
    Reach.next Reach.here
      (Step.logs_in manager busy alice (text "secret") 3 (5 ∷ 9 ∷ []) (ok session) busy_made)

Reach-cleanup_example :
    IsTable busy × (live (cleanup busy 20) (text "0509") 21 ≡ live busy (text "0509") 21)
Reach-cleanup_example = Reach-cleanup provider 10 busy (text "0509") 20 21 reached (omega arith)

abbrev red : Bytes
red = text "red"

abbrev state : GroupState
state = record {
  group_id = red;
  key = record { version = 7; sender_key = []; reason = RotationReason.join };
  message_count = 1;
}

abbrev groups : GroupManager
groups = (red, state) ∷ []

red_found : find red groups ≡ some state
unfolding find same
red_found = refl

abbrev draws : List Bytes
draws = (1 ∷ []) ∷ (2 ∷ []) ∷ (3 ∷ []) ∷ (4 ∷ []) ∷ []

on_messages_rounds_example :
    (q : ℕ) × (t : GroupState) × (find red (on_messages groups red 2 draws) ≡ some t)
    × (5 ≡ q * 2 + t.message_count)
    × (t.message_count < 2)
    × (t.key.version ≡ (7 + q) % 2 ^ 32)
on_messages_rounds_example =
    on_messages_rounds groups red state 2 draws red_found (omega arith) (omega arith) (omega arith)

abbrev leave_key : GroupKey
leave_key =
    make_key (((or_default empty_state (find red groups)).key.version + 1) % 2 ^ 32)
      RotationReason.leave (9 ∷ [])

abbrev directory : GroupDirectory
directory = (red, alice ∷ []) ∷ []

abbrev queue : OfflineQueue
queue = record {
  default_ttl = 10;
  messages =
      (bob, record { recipient = bob; payload = 1 ∷ []; created_at = 0; ttl = 10 } ∷ []) ∷ [];
}

queue-IsUnique : IsUnique queue.messages
unfolding find
queue-IsUnique = (refl, tt)

abbrev storage : OfflineStorage
storage = record {
  base_dir = text "files";
  ttl = 10;
  metadata = [];
  disk = record { files = []; writable = λ path. true; removed = [] };
}

abbrev draw : Draw
draw = record { id = 5 ∷ 9 ∷ []; key = replicate 32 1; nonce = replicate 16 2 }

fetch-put_file_example :
    (st' : OfflineStorage) × (p : PutOk) × (put_file storage alice red draw 3 ≡ done (st', ok p))
    × (meta st' p.file_id ≡ some p.meta)
    × (fetch st' p.file_id p.file_key false ≡ done (st', ok red))
    × (gone : OfflineStorage) × (fetch st' p.file_id p.file_key true ≡ done (gone, ok red))
    × (meta gone p.file_id ≡ none)
    × ((key : Bytes) (wipe : Bool)
        → fetch gone p.file_id key wipe ≡ done (gone, err (text "file not found")))
fetch-put_file_example =
    fetch-put_file storage alice red draw 3 refl refl (omega arith) (omega arith) (omega arith)

abbrev content : Bytes
content = replicate 40 1
