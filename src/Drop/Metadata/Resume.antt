-- ===== src/Drop/Metadata/Resume.antt =====
-- internal/drop/resume.go: where a transfer goes on.
use native.Mathlib.Nat.{div-mul-le_self, mul-mod_left}
use tantu.Prelude.{
  ℕ, ◌*◌, ◌/◌, ◌%◌, ◌≤◌, ◌<◌, ◌≡◌, refl, Bool, true, false, not, ◌||◌, Option, none, some, arith,
  length, ltb, leb, ◌==◌, if_cases, ltb→lt, is_positive, pos_part,
}
use tantu.Text.{Text, is_empty, equal_fold}
use tantu.Drop.Types.{DropSend}
use tantu.Drop.Sender.{Sent, ok, check_resume, chunk_size_of}
use tantu.Drop.Metadata.{resume_prefix, resume_verified, head_hash_size}

below_all : (a b d : Bool) (m n : ℕ) → (a || b || leb m n || d) ≡ false → n < m
below_all a b d m n h = ground (arith, h)

-- A sender that can seek takes an offset of whole chunks that it has.
accepts :
    (meta : DropSend) (payload : Text) (n : ℕ)
    → n % chunk_size_of meta ≡ 0
    → (0 < n → n ≤ length payload)
    → check_resume meta true payload n ≡ ok tt
unfolding check_resume
accepts meta payload n aligned enough =
    if_cases (λ (r : Sent (Unit {0})). r ≡ ok tt) (ltb 0 n)
      (λ some_bytes.
        let whole : (not (n % chunk_size_of meta == 0)) ≡ false = ground (arith, aligned) in
        let long : ltb (length payload) n ≡ false =
          ground (arith, enough (ltb→lt 0 n some_bytes)) in
        rw whole (rw long refl))
      (λ _. refl)

module _ (digest : Text → Text) where
  -- An offset that a receiver may announce: whole chunks that are there and are not all of the payload,
  -- with a head that was compared when there is enough of it.
  pub record IsResumable (head : Option Text) (part_size : ℕ) (meta : DropSend) (n : ℕ)
      : Type 0 where
    pub aligned : n % chunk_size_of meta ≡ 0
    pub present : n ≤ part_size
    pub short : 0 < n → n < pos_part meta.size
    pub verified :
        head_hash_size ≤ n
        → (h : Text) × (head ≡ some h) × (equal_fold (digest h) meta.head_hash ≡ true)

  restart :
      (head : Option Text) (part_size : ℕ) (meta : DropSend) → IsResumable head part_size meta 0
  restart head part_size meta = record {
    aligned = omega arith;
    present = omega arith;
    short = λ h. absurd (omega arith);
    verified = λ h. absurd (omega arith);
  }

  checked :
      (head : Option Text) (part_size : ℕ) (meta : DropSend) (n : ℕ)
      → n % chunk_size_of meta ≡ 0
      → n ≤ part_size
      → n < pos_part meta.size
      → IsResumable head part_size meta (resume_verified digest meta.head_hash head n)
  unfolding resume_verified
  checked none part_size meta n a p s = restart none part_size meta
  checked (some h) part_size meta n a p s =
      if_cases (IsResumable (some h) part_size meta) (not (equal_fold (digest h) meta.head_hash))
        (λ _. restart (some h) part_size meta)
        (λ e. record {
          aligned = a;
          present = p;
          short = λ _. s;
          verified = λ _. (h, refl, ground (arith, e));
        })

  -- Whatever the partial and the metadata, the resumed prefix is of whole chunks, lies within the
  -- partial, falls short of the declared size where it is not empty, and has a verified head where it
  -- holds 64 KiB or more.
  pub resume_prefix-IsResumable :
      (head : Option Text) (part_size : ℕ) (meta : DropSend)
      → IsResumable head part_size meta (resume_prefix digest head part_size meta)
  unfolding resume_prefix
  resume_prefix-IsResumable head part_size meta =
      let size = chunk_size_of meta in
      let valid = part_size / size * size in
      let aligned : valid % size ≡ 0 = mul-mod_left (part_size / size) size in
      let present : valid ≤ part_size = div-mul-le_self part_size size in
      if_cases (IsResumable head part_size meta)
        (not (is_positive meta.size)
          || (valid == 0)
          || leb (pos_part meta.size) valid
          || is_empty meta.head_hash)
        (λ _. restart head part_size meta)
        (λ e.
          let below : valid < pos_part meta.size =
            below_all (not (is_positive meta.size)) (valid == 0) (is_empty meta.head_hash)
              (pos_part meta.size) valid e in
          if_cases (IsResumable head part_size meta) (ltb valid head_hash_size)
            (λ small. record {
              aligned = aligned;
              present = present;
              short = λ _. below;
              verified = λ h. absurd (ground (arith, small, h));
            })
            (λ _. checked head part_size meta valid aligned present below))

  -- A sender that can seek and holds at least the declared size takes the announced offset.
  pub check_resume-resume_prefix :
      (head : Option Text) (part_size : ℕ) (meta : DropSend) (payload : Text)
      → pos_part meta.size ≤ length payload
      → check_resume meta true payload (resume_prefix digest head part_size meta) ≡ ok tt
  unfolding check_resume
  check_resume-resume_prefix head part_size meta payload long =
      let n = resume_prefix digest head part_size meta in
      let good = resume_prefix-IsResumable head part_size meta in
      accepts meta payload n good.aligned (λ h. omega (arith, good.short h, long))
