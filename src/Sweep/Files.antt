-- ===== src/Sweep/Files.antt =====
-- What a sweep leaves of the tables and of the files.
use mathlib.Core.Path.{subst}
use mathlib.Core.Bool.{true≢false}
use mathlib.Core.List.{Memᴰ}
use mathlib.Core.List.Memᴰ
use upmessenger.Base.{
  codes, length, take, take-length_append, length-append, ◌++◌, ℕ, ◌<◌, ◌≡◌, refl, sym, ap, ◌∙◌,
  Bool, true, false, none, some, List, [], ◌∷◌, map, Text, str_eq, str_eq→≡, select, All, ltb, leb,
  arith, if◌then◌else◌, Bool-cases, inl, inr,
}
use upmessenger.Server.{Database, Attachment}
use upmessenger.Server.Maintenance.{reap_expired_with_attachment_keys}
use upmessenger.Api.{AppState, Directory}
use upmessenger.Api.Folder.{read_file, remove_file, attachment_path}
use upmessenger.Api.Transfers.{read_file-remove}
use upmessenger.Sweep.{remove_blobs, keys_or_empty, run_sweep}

read_file-remove_other :
    (name other : Text) (files : Directory)
    → str_eq other name ≡ false
    → read_file name (remove_file other files) ≡ read_file name files
unfolding read_file remove_file
read_file-remove_other name other [] e = refl
read_file-remove_other name other ((n, bytes) ∷ files) e =
    let rest = read_file-remove_other name other files e in
    elim (Bool-cases (str_eq n other)) [
      | inl same ↦
          let differs : str_eq n name ≡ false = rw (str_eq→≡ n other same) e in
          rw (same, differs) rest
      | inr other ↦ rw (other) (ap (λ r. if str_eq n name then some bytes else r) rest)
    ]

read_file-absent :
    (name other : Text) (files : Directory)
    → read_file name files ≡ none
    → read_file name (remove_file other files) ≡ none
read_file-absent name other files e = elim (Bool-cases (str_eq other name)) [
  | inl same ↦ rw (str_eq→≡ other name same) (read_file-remove name files)
  | inr differs ↦ read_file-remove_other name other files differs ∙ e
]

remove_blobs-absent :
    (removed : Text → Bool) (name : Text) (keys : List Text) (files : Directory)
    → read_file name files ≡ none
    → read_file name (remove_blobs removed keys files) ≡ none
unfolding remove_blobs
remove_blobs-absent removed name [] files e = e
remove_blobs-absent removed name (key ∷ keys) files e = elim (Bool-cases (removed key)) [
  | inl gone ↦ rw gone (
      remove_blobs-absent removed name keys (remove_file (attachment_path key) files)
        (read_file-absent name (attachment_path key) files e))
  | inr kept ↦ rw kept (remove_blobs-absent removed name keys files e)
]

module _ (removed : Text → Bool) (works : (key : Text) → removed key ≡ true) where
  remove_blobs-first :
      (key : Text) (keys : List Text) (files : Directory)
      → remove_blobs removed (key ∷ keys) files
        ≡ remove_blobs removed keys (remove_file (attachment_path key) files)
  unfolding remove_blobs
  remove_blobs-first key keys files = rw (works key)

  remove_blobs-removed :
      (keys : List Text) (files : Directory)
      → All (λ key. read_file (attachment_path key) (remove_blobs removed keys files) ≡ none) keys
  remove_blobs-removed [] files = tt
  remove_blobs-removed (key ∷ keys) files =
      let files' = remove_file (attachment_path key) files in
      subst (λ left. All (λ k. read_file (attachment_path k) left ≡ none) (key ∷ keys))
        (sym (remove_blobs-first key keys files))
        (
          remove_blobs-absent removed (attachment_path key) keys files'
              (read_file-remove (attachment_path key) files),
          remove_blobs-removed keys files',
        )

remove_blobs-others :
    (removed : Text → Bool) (name : Text) (keys : List Text) (files : Directory)
    → All (λ key. str_eq (attachment_path key) name ≡ false) keys
    → read_file name (remove_blobs removed keys files) ≡ read_file name files
unfolding remove_blobs
remove_blobs-others removed name [] files differ = refl
remove_blobs-others removed name (key ∷ keys) files (differs, differ) =
    elim (Bool-cases (removed key)) [
      | inl gone ↦ rw gone (
          remove_blobs-others removed name keys (remove_file (attachment_path key) files) differ
          ∙ read_file-remove_other name (attachment_path key) files differs)
      | inr kept ↦ rw kept (remove_blobs-others removed name keys files differ)
    ]

-- Different keys have different files.
attachment_path-injective :
    (key other : Text) → attachment_path key ≡ attachment_path other → key ≡ other
unfolding attachment_path
attachment_path-injective key other e =
    let longer : length key ≡ length other = omega (
      arith,
      ap length e,
      length-append key (codes ".blob"),
      length-append other (codes ".blob"),
    ) in
    sym (take-length_append key (codes ".blob"))
    ∙ ap (λ t. take (length key) t) e
    ∙ ap (λ n. take n (other ++ codes ".blob")) longer
    ∙ take-length_append other (codes ".blob")

-- A file that cannot be removed stays.
remove_blobs-kept :
    (removed : Text → Bool) (key : Text) (keys : List Text) (files : Directory)
    → removed key ≡ false
    → read_file (attachment_path key) (remove_blobs removed keys files)
      ≡ read_file (attachment_path key) files
unfolding remove_blobs
remove_blobs-kept removed key [] files stays = refl
remove_blobs-kept removed key (other ∷ keys) files stays = elim (Bool-cases (removed other)) [
  | inr kept ↦ rw kept (remove_blobs-kept removed key keys files stays)
  | inl gone ↦ elim (Bool-cases (str_eq (attachment_path other) (attachment_path key))) [
    | inl same ↦
        let one : other ≡ key = attachment_path-injective other key (str_eq→≡ _ _ same) in
        absurd (true≢false (sym gone ∙ ap removed one ∙ stays))
    | inr differs ↦ rw gone (
        remove_blobs-kept removed key keys (remove_file (attachment_path other) files) stays
        ∙ read_file-remove_other (attachment_path key) (attachment_path other) files differs)
  ]
]

remove_blobs-gone :
    (removed : Text → Bool) (key : Text) (keys : List Text) (files : Directory)
    → removed key ≡ true
    → Memᴰ key keys
    → read_file (attachment_path key) (remove_blobs removed keys files) ≡ none
unfolding remove_blobs
remove_blobs-gone removed key [] files works m = absurd (Memᴰ.not-nil m)
remove_blobs-gone removed key (other ∷ keys) files works m = elim (Memᴰ.cases_cons m) [
  | inl same ↦
      let first : removed other ≡ true = ap removed (sym same) ∙ works in
      let files' = remove_file (attachment_path other) files in
      let absent : read_file (attachment_path key) files' ≡ none =
        ap (λ k. read_file (attachment_path k) files') same
        ∙ read_file-remove (attachment_path other) files in
      rw first (remove_blobs-absent removed (attachment_path key) keys files' absent)
  | inr later ↦ elim (Bool-cases (removed other)) [
    | inl gone ↦
        rw gone (
          remove_blobs-gone removed key keys (remove_file (attachment_path other) files) works
            later)
    | inr kept ↦ rw kept (remove_blobs-gone removed key keys files works later)
  ]
]

-- The file of a key in the list is gone exactly if it can be removed.
pub remove_blobs-read :
    (removed : Text → Bool) (key : Text) (keys : List Text) (files : Directory)
    → Memᴰ key keys
    → read_file (attachment_path key) (remove_blobs removed keys files)
      ≡ (if removed key then none else read_file (attachment_path key) files)
remove_blobs-read removed key keys files m = elim (Bool-cases (removed key)) [
  | inl gone ↦ rw gone (remove_blobs-gone removed key keys files gone m)
  | inr kept ↦ rw kept (remove_blobs-kept removed key keys files kept)
]

-- The storage keys of the attachments that have expired.
abbrev pub expired_keys : ℕ → Database → List Text
expired_keys now db = map (λ a. a.storage_key) (select (λ a. leb a.expires_at now) db.attachments)

select-unexpired :
    (now : ℕ) (rows : List Attachment)
    → All (λ a. now < a.expires_at) (select (λ a. ltb now a.expires_at) rows)
select-unexpired now [] = tt
select-unexpired now (a ∷ rows) = elim (Bool-cases (ltb now a.expires_at)) [
  | inl later ↦
      let first : now < a.expires_at = ground arith in rw later (first, select-unexpired now rows)
  | inr past ↦ rw past (select-unexpired now rows)
]

-- After a sweep in which every removal of a file succeeds, only attachments that expire later are in the
-- table, and no expired attachment has its file any more; any file whose name belongs to no expired attachment
-- is as it was.
pub run_sweep-expired :
    (now : ℕ) (removed : Text → Bool) (name : Text) (s : AppState)
    → ((key : Text) → removed key ≡ true)
    → All (λ key. str_eq (attachment_path key) name ≡ false) (expired_keys now s.db)
    → let s' = run_sweep now removed s in
      All (λ a. now < a.expires_at) s'.db.attachments
      × All
          (λ key. read_file (attachment_path key) s'.attachment_dir ≡ none)
          (expired_keys now s.db)
      × (read_file name s'.attachment_dir ≡ read_file name s.attachment_dir)
unfolding run_sweep keys_or_empty reap_expired_with_attachment_keys
run_sweep-expired now removed name s works differ =
    let keys = expired_keys now s.db in
    (
      select-unexpired now s.db.attachments,
      remove_blobs-removed removed works keys s.attachment_dir,
      remove_blobs-others removed name keys s.attachment_dir differ,
    )
