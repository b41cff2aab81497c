-- ===== src/Storage/Files.antt =====
-- class OfflineStorage: a file that was put is fetched with its key.
use e2ee_windows.Common.{
  ℕ, ◌+◌, ◌-◌, ◌≤◌, ◌<◌, ◌≡◌, ◌↔◌, refl, ◌∙◌, Bytes, All, IsByte, done, fault, ◌>>=◌, arith, Bool,
  true, false, Bool-cases, none, some, inl, inr, [], ◌∷◌, ◌++◌, length, length-append, append_assoc,
  take-append, drop-append, is_empty_pos, same_refl, text, ok, err, ltb, ◌==◌, take_long, leb,
  leb→le, le→ltb_false,
}
use e2ee_windows.Common.Dict.{find, put, erase, find-put, find-erase}
use e2ee_windows.Crypto.{hmac_digest}
use e2ee_windows.Crypto.Sizes.{length-hmac_digest}
use e2ee_windows.Session.{hex_string}
use e2ee_windows.Storage.{
  OfflineStorage, FileSystem, Draw, PutOk, resolve_path, decrypt, store, put_file, wipe_file,
  fetched, fetch_content, fetch, meta,
}
use e2ee_windows.Storage.Cipher.{body, length-body, encrypt_lem, encrypt_fault, decrypt_lem}

-- A file as it lies on disk.
content_parts :
    (st : OfflineStorage) (file_id key nonce cipher tag : Bytes) (wipe : Bool)
    → length nonce ≡ 16
    → length tag ≡ 32
    → 0 < length cipher
    → fetch_content st file_id key wipe (nonce ++ (cipher ++ tag))
      ≡ (do plaintext ← decrypt cipher key nonce tag; done (fetched st file_id wipe plaintext))
unfolding fetch_content
content_parts st file_id key nonce cipher tag wipe hn ht pos =
    let total : length (nonce ++ (cipher ++ tag)) ≡ 48 + length cipher =
      omega (arith, length-append nonce (cipher ++ tag), length-append cipher tag) in
    let short : ltb (length (nonce ++ (cipher ++ tag))) 48 ≡ false =
      le→ltb_false _ 48 (omega arith) in
    let left : length (nonce ++ (cipher ++ tag)) - 16 - 32 ≡ length cipher = omega arith in
    let nonzero : (length cipher == 0) ≡ false = ground arith in
    rw
      (
        short,
        left,
        nonzero,
        drop-append 16 nonce (cipher ++ tag) hn,
        take-append (length cipher) cipher tag refl,
        take-append 16 nonce (cipher ++ tag) hn,
        ← append_assoc nonce cipher tag,
        drop-append (16 + length cipher) (nonce ++ cipher) tag
            (omega (arith, length-append nonce cipher)),
        take_long 32 tag (omega arith),
      )
      refl

put_file_lem :
    (st : OfflineStorage) (owner plain : Bytes) (r : Draw) (now : ℕ)
    → length r.nonce ≡ 16
    → 0 < length plain
    → length plain ≤ 1008
    → put_file st owner plain r now
      ≡ done (
          store st owner plain r now
            (body plain r.key r.nonce, hmac_digest r.key (r.nonce ++ body plain r.key r.nonce)))
unfolding put_file
put_file_lem st owner plain r now hn pos h =
    rw (is_empty_pos plain pos, encrypt_lem plain r.key r.nonce hn h) refl

-- `Put` writes past a buffer on the stack exactly when the file has more than 1008 bytes.
pub put_file_fault_iff :
    (st : OfflineStorage) (owner plain : Bytes) (r : Draw) (now : ℕ)
    → length r.nonce ≡ 16
    → (put_file st owner plain r now ≡ fault) ↔ (1008 < length plain)
unfolding put_file
put_file_fault_iff st owner [] r now hn = (λ e. cc, λ h. absurd (omega arith))
put_file_fault_iff st owner (b ∷ plain) r now hn = (
  λ e. elim (Bool-cases (leb (length (b ∷ plain)) 1008)) [
    | inl le ↦ ground (arith, encrypt_lem (b ∷ plain) r.key r.nonce hn (leb→le _ 1008 le))
    | inr gt ↦ ground (arith, gt)
  ],
  λ h. rw (encrypt_fault (b ∷ plain) r.key r.nonce hn h) refl,
)

-- The state and the result of a `Put` that can open its file.
module _ (st : OfflineStorage) (owner plain : Bytes) (r : Draw) (now : ℕ) where
  abbrev sealed : Bytes × Bytes
  sealed = (body plain r.key r.nonce, hmac_digest r.key (r.nonce ++ body plain r.key r.nonce))

  abbrev pub stored : OfflineStorage
  stored = record st {
    metadata =
        put (hex_string r.id)
          (record { id = hex_string r.id; owner = owner; size = length plain; created_at = now })
          st.metadata;
    disk = record st.disk {
      files =
          put (resolve_path st.base_dir (hex_string r.id)) (r.nonce ++ (sealed.0 ++ sealed.1))
            st.disk.files;
    };
  }

  abbrev pub stored_ok : PutOk
  stored_ok = record {
    file_id = hex_string r.id;
    file_key = r.key;
    meta = record { id = hex_string r.id; owner = owner; size = length plain; created_at = now };
  }

  module _ (can : st.disk.writable (resolve_path st.base_dir (hex_string r.id)) ≡ true)
      (hn : length r.nonce ≡ 16) (pos : 0 < length plain) (fits : length plain ≤ 1008) where
    put_file_done : put_file st owner plain r now ≡ done (stored, ok stored_ok)
    put_file_done = put_file_lem st owner plain r now hn pos fits ∙ (unfold store in rw can refl)

    fetch_stored :
        (wipe : Bool)
        → All IsByte plain
        → fetch stored (hex_string r.id) r.key wipe
          ≡ done (fetched stored (hex_string r.id) wipe (some plain))
    unfolding fetch
    fetch_stored wipe b =
        rw
          (
            fetch,
            find-put (resolve_path st.base_dir (hex_string r.id))
                (resolve_path st.base_dir (hex_string r.id)) (r.nonce ++ (sealed.0 ++ sealed.1))
                st.disk.files,
            same_refl (resolve_path st.base_dir (hex_string r.id)),
          )
          (content_parts stored (hex_string r.id) r.key r.nonce sealed.0 sealed.1 wipe hn
              (length-hmac_digest r.key (r.nonce ++ sealed.0))
              (omega (arith, length-body plain r.key r.nonce hn))
            ∙ rw (decrypt_lem plain r.key r.nonce hn fits b) refl)

-- Once its file is wiped, an id fetches nothing, whatever the key.
find-wipe_file : (fs : FileSystem) (path : Bytes) → find path (wipe_file fs path).files ≡ none
unfolding wipe_file
find-wipe_file fs path = ground (arith, find-erase path path fs.files, same_refl path)

fetch_missing :
    (st : OfflineStorage) (file_id key : Bytes) (wipe : Bool)
    → find (resolve_path st.base_dir file_id) st.disk.files ≡ none
    → fetch st file_id key wipe ≡ done (st, err (text "file not found"))
unfolding fetch
fetch_missing st file_id key wipe e = rw (fetch, e) refl

-- A file of 1 to 1008 bytes, put where its path can be opened, is described by its metadata and
-- fetched with its key, any number of times without wiping. The first fetch with wiping still
-- returns it; from then on the id has no metadata and no key fetches anything under it.
pub fetch-put_file :
    (st : OfflineStorage) (owner plain : Bytes) (r : Draw) (now : ℕ)
    → st.disk.writable (resolve_path st.base_dir (hex_string r.id)) ≡ true
    → length r.nonce ≡ 16
    → 0 < length plain
    → length plain ≤ 1008
    → All IsByte plain
    → (st' : OfflineStorage) × (p : PutOk) × (put_file st owner plain r now ≡ done (st', ok p))
      × (meta st' p.file_id ≡ some p.meta)
      × (fetch st' p.file_id p.file_key false ≡ done (st', ok plain))
      × (gone : OfflineStorage) × (fetch st' p.file_id p.file_key true ≡ done (gone, ok plain))
      × (meta gone p.file_id ≡ none)
      × ((key : Bytes) (wipe : Bool)
          → fetch gone p.file_id key wipe ≡ done (gone, err (text "file not found")))
fetch-put_file st owner plain r now can hn pos fits b =
    let st' = stored st owner plain r now in
    let id = hex_string r.id in
    let gone : OfflineStorage = record st' {
      metadata = erase id st'.metadata;
      disk = wipe_file st'.disk (resolve_path st.base_dir id);
    } in
    (
      st',
      stored_ok st owner plain r now,
      put_file_done st owner plain r now can hn pos fits,
      (unfold meta in rw (find-put id id _ st.metadata, same_refl id) refl),
      (unfold fetched in fetch_stored st owner plain r now can hn pos fits false b),
      gone,
      (unfold fetched in fetch_stored st owner plain r now can hn pos fits true b),
      (unfold meta in rw (find-erase id id st'.metadata, same_refl id) refl),
      λ key wipe.
          fetch_missing gone id key wipe (find-wipe_file st'.disk (resolve_path st.base_dir id)),
    )
