-- ===== src/Task/Store/Files.antt =====
-- internal/task/store.go: `Save` of the file store, call by call.
use otus.Text.{codes}
use otus.Task.Store.{
  PersistedTask, temp_path, Directory, write_temp, save_file, path, Disk, set_version, last_state,
}
use otus.Base.{
  Bytes, ℕ, Option, ◌∷◌, [], ◌++◌, ◌=?◌, ◌≡◌, lookup, refl, false, ◌⊎◌, Bool-cases, some, All, inr,
  list_eq, nat_eq, inl, ◌∙◌, true, insert, delete, List, if_intro, sym, lookup-insert,
  lookup-delete, if◌then◌else◌, Bool, not, ap, ◌&&◌, arith,
}

-- The last byte, which tells the temporary name from the final one.
last_byte : Bytes → ℕ
last_byte [] = 0
last_byte (c ∷ []) = c
last_byte (c ∷ d ∷ s) = last_byte (d ∷ s)

last_byte-append : (s : Bytes) (c : ℕ) (t : Bytes) → last_byte (s ++ c ∷ t) ≡ last_byte (c ∷ t)
unfolding last_byte
last_byte-append [] c t = refl
last_byte-append (d ∷ []) c t = refl
last_byte-append (d ∷ e ∷ s) c t = last_byte-append (e ∷ s) c t

temp-not_final : (random id j : Bytes) → (temp_path random id =? path j) ≡ false
unfolding last_byte
temp-not_final random id j = elim (Bool-cases (temp_path random id =? path j)) [
  | inr miss ↦ miss
  | inl hit ↦
      let same : temp_path random id ≡ path j =
        (list_eq.beq_iff (temp_path random id) (path j)).0 hit in
      let t : last_byte (temp_path random id) ≡ b'p' =
        last_byte-append (b'.' ∷ id) b'.' (random ++ codes ".tmp")
        ∙ last_byte-append (b'.' ∷ random) b'.' (codes "tmp") in
      let p : last_byte (path j) ≡ b'n' = last_byte-append j b'.' (codes "json") in
      let e : 112 ≡ 110 = sym t ∙ ap last_byte same ∙ p in absurd (omega (arith, e))
]

-- In the directory `s` a file is as before, or it is the one that is saved, complete.
abbrev pub IsOldOrNew : Bytes → Bytes → Directory → Bytes → Directory → Type 0
IsOldOrNew final content dir name s =
    (lookup name s ≡ lookup name dir) ⊎ (((final =? name) ≡ true) × (lookup name s ≡ some content))

module _ (encode : PersistedTask → Option Bytes) (decode : Bytes → Option PersistedTask) where
  module _ (d : Disk) (temp final content : Bytes) (dir : Directory) (name : Bytes)
      (n : (temp =? name) ≡ false) where
    lookup-temp : (v : Bytes) → lookup name (insert temp v dir) ≡ lookup name dir
    lookup-temp v = lookup-insert temp name v dir ∙ rw n refl

    lookup-removed : (v : Bytes) → lookup name (delete temp (insert temp v dir)) ≡ lookup name dir
    lookup-removed v = lookup-delete temp name (insert temp v dir) ∙ rw n (lookup-temp v)

    lookup-renamed :
        lookup name (insert final content (delete temp (insert temp content dir)))
        ≡ (if final =? name then some content else lookup name dir)
    lookup-renamed =
        lookup-insert final name content (delete temp (insert temp content dir))
        ∙ rw (lookup-removed content) refl

    renamed-IsOldOrNew :
        IsOldOrNew final content dir name
          (insert final content (delete temp (insert temp content dir)))
    renamed-IsOldOrNew = elim (Bool-cases (final =? name)) [
      | inl hit ↦ inr (hit, lookup-renamed ∙ rw hit refl)
      | inr miss ↦ inl (lookup-renamed ∙ rw miss refl)
    ]

    -- Every state of the directory, and the last.
    abbrev IsSafe : List Directory × Bool → Type 0
    IsSafe (states, success) =
        All (IsOldOrNew final content dir name) states
        × (lookup name (last_state encode decode states dir)
            ≡ (if success && (final =? name) then some content else lookup name dir))

    failed-IsSafe :
        (v : Bytes)
        → IsSafe
            (insert temp [] dir ∷ insert temp v dir ∷ delete temp (insert temp v dir) ∷ [], false)
    failed-IsSafe v = (
      (inl (lookup-temp []), (inl (lookup-temp v), (inl (lookup-removed v), tt))),
      lookup-removed v,
    )

    write_temp-IsSafe : IsSafe (write_temp encode decode d temp final content dir)
    unfolding write_temp
    write_temp-IsSafe =
        if_intro IsSafe (not d.creates) (λ _. (tt, refl))
          λ _.
            if_intro IsSafe (not d.writes) (λ _. failed-IsSafe d.written)
              λ _.
                if_intro IsSafe (not d.closes) (λ _. failed-IsSafe content)
                  λ _.
                    if_intro IsSafe (not d.renames) (λ _. failed-IsSafe content)
                      (λ _. (
                        (
                          inl (lookup-temp []),
                          (inl (lookup-temp content), (renamed-IsOldOrNew, tt)),
                        ),
                        lookup-renamed,
                      ))

  -- Whenever `Save` is interrupted, and whichever of its calls fail, the file of every task is as
  -- before, but for that of the saved task, which may be the complete new record. At the end it is
  -- that if `Save` returns no error, and as before if it returns one.
  pub save_file-atomic :
      (d : Disk) (random content : Bytes) (pt : PersistedTask) (dir : Directory) (id : Bytes)
      → encode (record pt { version = set_version pt.version }) ≡ some content
      → All
          (IsOldOrNew (path pt.config.id) content dir (path id))
          (save_file encode decode d random pt dir).0
        × (lookup
              (path id)
              (last_state encode decode (save_file encode decode d random pt dir).0 dir)
            ≡ (if (save_file encode decode d random pt dir).1 && (path pt.config.id =? path id)
                then some content
                else lookup (path id) dir))
  unfolding save_file
  save_file-atomic d random content pt dir id e =
      rw (save_file, e)
        (write_temp-IsSafe d (temp_path random pt.config.id) (path pt.config.id) content dir
          (path id) (temp-not_final random pt.config.id id))
