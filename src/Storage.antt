-- ===== src/Storage.antt =====
-- server/src/offline_storage.cpp, class OfflineStorage: files that are kept encrypted on disk until
-- they are fetched once or have expired. The file system is part of the state: the contents of the
-- files by path, which paths can be opened for writing, and what was last written to the files
-- that are removed. Calls of the file system other than opening a file are taken to succeed. The
-- random bytes of an id, a key and a nonce are an argument, as are the readings of the clock.
pub mod Cipher
pub mod Files
pub mod Wipe
use Prim.Native.Nat.{bit_xor}
use e2ee_windows.Common.{
  ℕ, zero, suc, ◌+◌, ◌-◌, ◌*◌, ◌/◌, ◌%◌, ◌==◌, Bool, true, false, not, Option, none, some, List, [],
  ◌∷◌, ◌++◌, Bytes, text, same, Run, done, fault, ◌>>=◌, Result, ok, err, if◌then◌else◌, length,
  take, drop, replicate, ltb, is_empty, min,
}
use e2ee_windows.Common.Dict.{Dict, find, put, erase}
use e2ee_windows.Crypto.Sha.{be64}
use e2ee_windows.Crypto.{hmac_sha256}
use e2ee_windows.Channel.{xor_bytes}
use e2ee_windows.Session.{hex_string}

pub record StoredFileMeta : Type 0 where
  pub id : Bytes
  pub owner : Bytes
  pub size : ℕ
  pub created_at : ℕ

pub record FileSystem : Type 0 where
  pub files : Dict Bytes
  pub writable : Bytes → Bool
  pub removed : List Bytes

pub record OfflineStorage : Type 0 where
  pub base_dir : Bytes
  pub ttl : ℕ
  pub metadata : Dict StoredFileMeta
  pub disk : FileSystem

-- The random bytes of one `Put`: 16 for the id, 32 for the key, 16 for the nonce.
pub record Draw : Type 0 where
  pub id : Bytes
  pub key : Bytes
  pub nonce : Bytes

-- `base_dir_ / (file_id + ".bin")` for a base directory that does not end in a slash; an absolute
-- name replaces the base.
unfoldable pub resolve_path : Bytes → Bytes → Bytes
resolve_path base [] = base ++ text "/.bin"
resolve_path base (c ∷ cs) =
    if c == b'/' then (c ∷ cs) ++ text ".bin" else base ++ (text "/" ++ ((c ∷ cs) ++ text ".bin"))

unfoldable pub derive_block : Bytes → Bytes → ℕ → Run Bytes
derive_block key nonce counter = hmac_sha256 key (nonce ++ be64 counter)

-- The loop of `Encrypt` and of `Decrypt`; `rest` is what stands behind `offset`.
unfoldable pub crypt_loop : ℕ → Bytes → Bytes → ℕ → Bytes → Bytes → Run Bytes
crypt_loop zero key nonce counter rest out = done out
crypt_loop (suc fuel) key nonce counter rest out =
    let more = (do
      block ← derive_block key nonce counter
      crypt_loop fuel key nonce (counter + 1) (drop 32 rest)
          (out ++ xor_bytes (take 32 rest) block)) in
    if is_empty rest then done out else more

-- The cipher text and the tag. A round takes a byte at least, so `length plaintext` rounds suffice.
unfoldable pub encrypt : Bytes → Bytes → Bytes → Run (Bytes × Bytes)
encrypt plaintext key nonce = do
  cipher ← crypt_loop (length plaintext) key nonce 0 plaintext []
  tag ← hmac_sha256 key (nonce ++ cipher)
  done (cipher, tag)

unfoldable pub decrypt : Bytes → Bytes → Bytes → Bytes → Run (Option Bytes)
decrypt cipher key nonce tag = do
  calc ← hmac_sha256 key (nonce ++ cipher)
  if same tag calc
      then (do plaintext ← crypt_loop (length cipher) key nonce 0 cipher []; done (some plaintext))
      else done none

pub record PutOk : Type 0 where
  pub file_id : Bytes
  pub file_key : Bytes
  pub meta : StoredFileMeta

-- Writing the file and its metadata, behind the encryption.
unfoldable pub store :
    OfflineStorage → Bytes → Bytes → Draw → ℕ → Bytes × Bytes → OfflineStorage × Result PutOk
store st owner plaintext r now (cipher, tag) =
    let id = hex_string r.id in
    let path = resolve_path st.base_dir id in
    let meta : StoredFileMeta = record {
      id = id;
      owner = owner;
      size = length plaintext;
      created_at = now;
    } in
    if st.disk.writable path
    then (
      record st {
        metadata = put id meta st.metadata;
        disk = record st.disk { files = put path (r.nonce ++ (cipher ++ tag)) st.disk.files };
      },
      ok (record { file_id = id; file_key = r.key; meta = meta }),
    )
    else (st, err (text "open file failed"))

unfoldable pub put_file :
    OfflineStorage → Bytes → Bytes → Draw → ℕ → Run (OfflineStorage × Result PutOk)
put_file st owner plaintext r now =
    if is_empty plaintext
    then done (st, err (text "empty payload"))
    else (do sealed ← encrypt plaintext r.key r.nonce; done (store st owner plaintext r now sealed))

-- `len` bytes of 0xFF written at `offset`, inside of the file.
unfoldable pub overwrite : ℕ → ℕ → Bytes → Bytes
overwrite offset len content =
    take offset content ++ (replicate len 0xff ++ drop (offset + len) content)

-- The writes of `WipeFile`: at the front, in the middle, and at the end.
unfoldable pub wiped : Bytes → Bytes
wiped content =
    let size = length content in
    let wipe_len = min size 16 in
    let front = overwrite 0 wipe_len content in
    let mid = size / 2 in
    let middle = overwrite mid (min wipe_len (size - mid)) front in
    if ltb wipe_len size
    then (if ltb (wipe_len * 2) size then overwrite (size - wipe_len) wipe_len middle else middle)
    else front

unfoldable pub wipe_file : FileSystem → Bytes → FileSystem
wipe_file fs path = elim (find path fs.files) [
  | none ↦ fs
  | some content ↦ record fs {
    files = erase path fs.files;
    removed = (if fs.writable path then wiped content else content) ∷ fs.removed;
  }
]

-- `Fetch` behind the decryption.
unfoldable pub fetched :
    OfflineStorage → Bytes → Bool → Option Bytes → OfflineStorage × Result Bytes
fetched st file_id wipe_after_read none = (st, err (text "auth failed"))
fetched st file_id true (some plaintext) = (
  record st {
    metadata = erase file_id st.metadata;
    disk = wipe_file st.disk (resolve_path st.base_dir file_id);
  },
  ok plaintext,
)
fetched st file_id false (some plaintext) = (st, ok plaintext)

unfoldable pub fetch_content :
    OfflineStorage → Bytes → Bytes → Bool → Bytes → Run (OfflineStorage × Result Bytes)
fetch_content st file_id file_key wipe_after_read content =
    let cipher_len = length content - 16 - 32 in
    if ltb (length content) 48
    then done (st, err (text "file truncated"))
    else if cipher_len == 0
    then done (st, err (text "cipher empty"))
    else (do
      plaintext ←
          decrypt (take cipher_len (drop 16 content)) file_key (take 16 content)
            (take 32 (drop (16 + cipher_len) content))
      done (fetched st file_id wipe_after_read plaintext))

unfoldable pub fetch : OfflineStorage → Bytes → Bytes → Bool → Run (OfflineStorage × Result Bytes)
fetch st file_id file_key wipe_after_read =
    elim (find (resolve_path st.base_dir file_id) st.disk.files) [
      | none ↦ done (st, err (text "file not found"))
      | some content ↦ fetch_content st file_id file_key wipe_after_read content
    ]

unfoldable pub meta : OfflineStorage → Bytes → Option StoredFileMeta
meta st file_id = find file_id st.metadata

-- `now - created_at > ttl_`
unfoldable pub is_expired : ℕ → ℕ → StoredFileMeta → Bool
is_expired ttl now m = ltb ttl (now - m.created_at)

-- The loop of `CleanupExpired` over the metadata: what is left of it, and the disk.
unfoldable pub sweep : OfflineStorage → ℕ → Dict StoredFileMeta → Dict StoredFileMeta × FileSystem
sweep st now [] = ([], st.disk)
sweep st now ((id, m) ∷ rest) =
    let (kept, disk) = sweep st now rest in
    if is_expired st.ttl now m
    then (kept, wipe_file disk (resolve_path st.base_dir id))
    else ((id, m) ∷ kept, disk)

unfoldable pub cleanup_expired : OfflineStorage → ℕ → OfflineStorage
cleanup_expired st now =
    let (kept, disk) = sweep st now st.metadata in record st { metadata = kept; disk = disk }
