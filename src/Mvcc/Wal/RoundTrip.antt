-- ===== src/Mvcc/Wal/RoundTrip.antt =====
-- What is written to the log is read back from it.
use mathlib.Core.List.{append-nil, append_assoc}
use odyssey_tasks.Prelude.{
  ℕ, zero, suc, ◌+◌, ◌-◌, ◌/◌, ◌%◌, ◌^◌, ◌<◌, ◌≤◌, ◌≡◌, refl, sym, ap, ap₂, ◌∙◌, true, some, List,
  [], ◌∷◌, ◌++◌, length, length-append, take, take-append, take-length, drop-append, All, arith,
}
use native.Mathlib.Nat.{pow-suc}
use odyssey_tasks.Mvcc.Wal.{
  LogRecord, Wal, new, open_file, le_bytes, of_le, write_string, write_record, append_record, Input,
  read_bytes, read_int, read_string, read_fields, is_eof, read_loop, read_all_records,
}

-- The values of the members fit their types, and the strings their lengths.
pub record IsRecord (r : LogRecord) : Type 0 where
  pub lsn : r.lsn < 2 ^ 64
  pub prev_lsn : r.prev_lsn < 2 ^ 64
  pub txn_id : r.txn_id < 2 ^ 64
  pub type : r.type < 256
  pub key : r.key < 2 ^ 64
  pub undo_next_lsn : r.undo_next_lsn < 2 ^ 64
  pub before_val : length r.before_val < 2 ^ 32
  pub after_val : length r.after_val < 2 ^ 32

length-le_bytes : (n v : ℕ) → length (le_bytes n v) ≡ n
unfolding le_bytes
length-le_bytes zero v = refl
length-le_bytes (suc n) v = ap suc (length-le_bytes n (v / 256))

of_le-le_bytes : (n v : ℕ) → v < 256 ^ n → of_le (le_bytes n v) ≡ v
unfolding le_bytes of_le
of_le-le_bytes zero v h = omega arith
of_le-le_bytes (suc n) v h =
    omega (arith, of_le-le_bytes n (v / 256) (omega (arith, pow-suc 256 n)))

abbrev input : List ℕ → Input
input rest = record { rest = rest; good = true }

read_bytes-append :
    (front rest : List ℕ) → read_bytes (length front) (input (front ++ rest)) ≡ (front, input rest)
unfolding read_bytes
read_bytes-append front rest =
    ground (arith, length-append front rest, take-append front rest, drop-append front rest)

read_int-append :
    (n v : ℕ) (rest : List ℕ)
    → v < 256 ^ n
    → read_int n (input (le_bytes n v ++ rest)) ≡ (v, input rest)
unfolding read_int
read_int-append n v rest h =
    let found : read_bytes n (input (le_bytes n v ++ rest)) ≡ (le_bytes n v, input rest) =
      ap (λ (k : ℕ). read_bytes k (input (le_bytes n v ++ rest))) (sym (length-le_bytes n v))
      ∙ read_bytes-append (le_bytes n v) rest in
    rw (found, of_le-le_bytes n v h)

read_string-append :
    (val rest : List ℕ)
    → length val < 2 ^ 32
    → read_string (input (write_string val ++ rest)) ≡ (val, input rest)
unfolding read_string write_string
read_string-append val rest h =
    let len : length val % 2 ^ 32 ≡ length val = omega arith in
    let whole : take (length val) val ≡ val = take-length val (length val) (omega arith) in
    let none_left : length val - length val ≡ 0 = omega arith in
    rw (
      len,
      whole,
      append_assoc (le_bytes 4 (length val)) val rest,
      read_int-append 4 (length val) (val ++ rest) (omega arith),
      read_bytes-append val rest,
      none_left,
      append-nil val,
    )

-- What `write_record` writes after the sequence number.
tail_bytes : LogRecord → List ℕ
tail_bytes r =
    le_bytes 8 r.prev_lsn
    ++ (le_bytes 8 r.txn_id
        ++ (le_bytes 1 r.type
            ++ (le_bytes 8 r.key
                ++ (le_bytes 8 r.undo_next_lsn
                    ++ (write_string r.before_val ++ write_string r.after_val)))))

tail_bytes-append :
    (r : LogRecord) (rest : List ℕ)
    → tail_bytes r ++ rest
      ≡ le_bytes 8 r.prev_lsn
        ++ (le_bytes 8 r.txn_id
            ++ (le_bytes 1 r.type
                ++ (le_bytes 8 r.key
                    ++ (le_bytes 8 r.undo_next_lsn
                        ++ (write_string r.before_val ++ (write_string r.after_val ++ rest))))))
unfolding tail_bytes
tail_bytes-append r rest = simp append_assoc

read_fields-append :
    (r : LogRecord) (rest : List ℕ)
    → IsRecord r
    → read_fields r.lsn (input (tail_bytes r ++ rest)) ≡ (r, input rest)
unfolding read_fields
read_fields-append r rest h =
    let s₇ = rest in
    let s₆ = write_string r.after_val ++ s₇ in
    let s₅ = write_string r.before_val ++ s₆ in
    let s₄ = le_bytes 8 r.undo_next_lsn ++ s₅ in
    let s₃ = le_bytes 8 r.key ++ s₄ in
    let s₂ = le_bytes 1 r.type ++ s₃ in
    let s₁ = le_bytes 8 r.txn_id ++ s₂ in
    rw (
      tail_bytes-append r rest,
      read_int-append 8 r.prev_lsn s₁ h.prev_lsn,
      read_int-append 8 r.txn_id s₂ h.txn_id,
      read_int-append 1 r.type s₃ h.type,
      read_int-append 8 r.key s₄ h.key,
      read_int-append 8 r.undo_next_lsn s₅ h.undo_next_lsn,
      read_string-append r.before_val s₆ h.before_val,
      read_string-append r.after_val s₇ h.after_val,
    )

write_all : List LogRecord → List ℕ
write_all [] = []
write_all (r ∷ rs) = write_record r ++ write_all rs

read_loop-write_all :
    (fuel : ℕ) (rs done : List LogRecord)
    → length rs < fuel
    → All IsRecord rs
    → read_loop fuel (input (write_all rs)) done ≡ some (done ++ rs)
unfolding read_loop is_eof write_record tail_bytes le_bytes write_all
read_loop-write_all zero rs done h ok = absurd (omega arith)
read_loop-write_all (suc fuel) [] done h ok = sym (ap some (append-nil done))
read_loop-write_all (suc fuel) (r ∷ rs) done h ok =
    let rest = write_all rs in
    let opened : write_record r ++ rest ≡ le_bytes 8 r.lsn ++ (tail_bytes r ++ rest) =
      append_assoc (le_bytes 8 r.lsn) (tail_bytes r) rest in
    let fields = read_fields-append r rest ok.0 in
    let rec = read_loop-write_all fuel rs (done ++ r ∷ []) (omega arith) ok.1 in
    rw (
      opened,
      read_int-append 8 r.lsn (tail_bytes r ++ rest) ok.0.lsn,
      fields,
      rec,
      append_assoc done (r ∷ []) rs,
    )

write_record-length : (r : LogRecord) → 8 ≤ length (write_record r)
unfolding write_record le_bytes
write_record-length r = omega arith

write_all-length : (rs : List LogRecord) → length rs ≤ length (write_all rs)
unfolding write_all
write_all-length [] = omega arith
write_all-length (r ∷ rs) = omega (
  arith,
  length-append (write_record r) (write_all rs),
  write_record-length r,
  write_all-length rs,
)

-- The records appended one after another, as `append_record` does for each.
pub append_all : Wal → List LogRecord → Wal
append_all w [] = w
append_all w (r ∷ rs) = append_all (append_record w r).0 rs

-- The records with the sequence numbers from `lsn` on.
pub numbered : ℕ → List LogRecord → List LogRecord
numbered lsn [] = []
numbered lsn (r ∷ rs) = record r { lsn = lsn } ∷ numbered (lsn + 1) rs

append_all-state :
    (w : Wal) (rs : List LogRecord)
    → w.is_open ≡ true
    → w.next_lsn + length rs < 2 ^ 64
    → ((append_all w rs).is_open ≡ true)
      × ((append_all w rs).file ≡ w.file ++ write_all (numbered w.next_lsn rs))
      × ((append_all w rs).next_lsn ≡ w.next_lsn + length rs)
unfolding append_all numbered write_all append_record
append_all-state w [] o h = (o, sym (append-nil w.file), omega arith)
append_all-state w (r ∷ rs) o h =
    let w' = (append_record w r).0 in
    let bytes = write_record (record r { lsn = w.next_lsn }) in
    let bump : (w.next_lsn + 1) % 2 ^ 64 ≡ w.next_lsn + 1 = omega arith in
    let file : w'.file ≡ w.file ++ bytes = rw o in
    let rec = append_all-state w' rs o (omega arith) in
    (
      rec.0,
      rec.1
          ∙ ap₂ (λ (f : List ℕ) (n : ℕ). f ++ write_all (numbered n rs)) file bump
          ∙ append_assoc w.file bytes (write_all (numbered (w.next_lsn + 1) rs)),
      omega (arith, rec.2, bump),
    )

numbered-length : (lsn : ℕ) (rs : List LogRecord) → length (numbered lsn rs) ≡ length rs
unfolding numbered
numbered-length lsn [] = refl
numbered-length lsn (r ∷ rs) = ap suc (numbered-length (lsn + 1) rs)

numbered-IsRecord :
    (lsn : ℕ) (rs : List LogRecord)
    → All IsRecord rs
    → lsn + length rs < 2 ^ 64
    → All IsRecord (numbered lsn rs)
unfolding numbered
numbered-IsRecord lsn [] ok h = ok
numbered-IsRecord lsn (r ∷ rs) ok h =
    let old = ok.0 in
    (
      record {
        lsn = omega arith;
        prev_lsn = old.prev_lsn;
        txn_id = old.txn_id;
        type = old.type;
        key = old.key;
        undo_next_lsn = old.undo_next_lsn;
        before_val = old.before_val;
        after_val = old.after_val;
      },
      numbered-IsRecord (lsn + 1) rs ok.1 (omega arith),
    )

-- Where the members of the records fit their types and the numbers do not reach 2^64, a log that
-- opens an empty file and appends the records reads back all of them, in order, numbered from 1.
pub read_all_records-append_all :
    (rs : List LogRecord)
    → All IsRecord rs
    → length rs + 1 < 2 ^ 64
    → read_all_records (append_all (open_file new (some [])).0 rs) ≡ some (numbered 1 rs)
unfolding read_all_records new open_file
read_all_records-append_all rs ok h =
    let w = (open_file new (some [])).0 in
    let end = append_all w rs in
    let state = append_all-state w rs refl (omega arith) in
    let size : length (numbered 1 rs) < suc (length (write_all (numbered 1 rs))) =
      omega (arith, write_all-length (numbered 1 rs)) in
    let loop =
      read_loop-write_all (suc (length (write_all (numbered 1 rs)))) (numbered 1 rs) [] size
        (numbered-IsRecord 1 rs ok (omega arith)) in
    rw (state.0, state.1, loop)
