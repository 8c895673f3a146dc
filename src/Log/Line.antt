-- ===== src/Log/Line.antt =====
-- What a round of the replay does with a line as `gtfs_sync_write_file` writes it.
use advanced_oslab.Prelude.{
  append_assoc, append_nil, ℕ, zero, suc, ◌≤◌, ◌<◌, ◌^◌, ◌≡◌, refl, sym, ap, ◌∙◌, Bool, true, false,
  none, some, [], ◌∷◌, ◌++◌, length, length-append, arith, Option-cases, inl, inr,
}
use advanced_oslab.Prelude.Int.{pos}
use advanced_oslab.Prelude.Outcome.{ok}
use advanced_oslab.Text.{Bytes, has, put, pieces, to_string}
use advanced_oslab.Text.Pieces.{pieces-append, pieces-last, has-append}
use advanced_oslab.Text.Decimal.{has-to_string, stoi-to_string}
use advanced_oslab.Disk.{Disk, Os, take, write_at}
use advanced_oslab.Log.{open_stream, full_path, log_line, write_stream, apply_fields, apply_line}

-- A write as the log keeps it. The content ends in a line feed or has none.
pub record Entry : Type 0 where
  pub filename : Bytes
  pub offset : ℕ
  pub count : ℕ
  pub first : ℕ
  pub rest : Bytes
  pub is_line : Bool

abbrev pub ending : Bool → Bytes
ending true = 10 ∷ []
ending false = []

abbrev pub content : Entry → Bytes
content e = e.first ∷ (e.rest ++ ending e.is_line)

-- Without the characters that the format reserves, with numbers within `int`, and with as much content
-- as is to be written.
pub record IsPlain (e : Entry) : Type 0 where
  pub no_bar_name : has 124 e.filename ≡ false
  pub no_feed_name : has 10 e.filename ≡ false
  pub no_bar : has 124 (e.first ∷ e.rest) ≡ false
  pub no_feed : has 10 (e.first ∷ e.rest) ≡ false
  pub offset_fits : e.offset < 2 ^ 31
  pub count_fits : e.count < 2 ^ 31
  pub enough : e.count ≤ length (content e)

-- What the write does to the files: the bytes go to their place, if the file is there and can
-- be open_stream.
abbrev pub written : Os → (dirname : Bytes) → Disk → Entry → Disk
written os dirname disk e = elim (open_stream os disk (full_path dirname e.filename)) [
  | none ↦ disk
  | some file ↦
      put disk (full_path dirname e.filename)
        (some (write_at e.offset (take e.count (content e)) file))
]

abbrev pub core : Entry → Bytes
core e = log_line e.filename e.offset e.count (e.first ∷ e.rest)

pieces-core :
    (e : Entry)
    → IsPlain e
    → pieces 124 (core e)
      ≡ e.filename ∷ to_string e.offset ∷ to_string e.count ∷ (e.first ∷ e.rest) ∷ []
unfolding log_line
pieces-core e h =
    pieces-append 124 e.filename _ h.no_bar_name
    ∙ ap (λ t. e.filename ∷ t)
        (pieces-append 124 (to_string e.offset) _ (has-to_string 124 e.offset refl))
    ∙ ap (λ t. e.filename ∷ to_string e.offset ∷ t)
        (pieces-append 124 (to_string e.count) _ (has-to_string 124 e.count refl))
    ∙ ap (λ t. e.filename ∷ to_string e.offset ∷ to_string e.count ∷ t)
        (pieces-last 124 e.first e.rest h.no_bar)

pub has_feed-core : (e : Entry) → IsPlain e → has 10 (core e) ≡ false
unfolding log_line has
has_feed-core e h = has-append 10 e.filename _ h.no_feed_name (
    has-append 10 (124 ∷ to_string e.offset) _ (has-to_string 10 e.offset refl)
      (has-append 10 (124 ∷ to_string e.count) _ (has-to_string 10 e.count refl) h.no_feed))

pub take-append : (n : ℕ) (xs ys : Bytes) → n ≤ length xs → take n (xs ++ ys) ≡ take n xs
unfolding take
take-append zero xs ys h = refl
take-append (suc n) [] ys h = absurd (omega arith)
take-append (suc n) (x ∷ xs) ys h = ground (arith, take-append n xs ys)

apply_line-append :
    (os : Os) (dirname : Bytes) (disk : Disk) (f : Bytes) (c : ℕ) (s : Bytes)
    → apply_line os dirname disk (f ++ c ∷ s)
      ≡ apply_fields os dirname disk (pieces 124 (f ++ c ∷ s))
unfolding apply_line
apply_line-append os dirname disk [] c s = refl
apply_line-append os dirname disk (d ∷ f) c s = refl

-- The stream has what the write asked for, whether its content ended in a line feed or not.
take-stream :
    (n c : ℕ) (s : Bytes) (is_line : Bool)
    → n ≤ length (c ∷ (s ++ ending is_line))
    → (take n (((c ∷ s) ++ 10 ∷ []) ++ 0 ∷ []) ≡ take n (c ∷ (s ++ ending is_line)))
      × (n ≤ length ((c ∷ s) ++ 10 ∷ []))
take-stream n c s true h = (take-append n (c ∷ (s ++ 10 ∷ [])) (0 ∷ []) h, h)
take-stream n c s false h =
    let fits : n ≤ length (c ∷ s) = rw (append_nil s) at h in
    (
      ap (take n) (append_assoc (c ∷ s) (10 ∷ []) (0 ∷ []))
          ∙ take-append n (c ∷ s) (10 ∷ 0 ∷ []) fits
          ∙ ap (λ t. take n (c ∷ t)) (sym (append_nil s)),
      omega (arith, length-append s (10 ∷ [])),
    )

write_stream-written :
    (os : Os) (dirname : Bytes) (disk : Disk) (e : Entry)
    → e.count ≤ length (content e)
    → write_stream os disk
        (full_path dirname e.filename)
        (pos e.offset)
        (pos e.count)
        ((e.first ∷ e.rest) ++ 10 ∷ [])
      ≡ ok (written os dirname disk e)
unfolding write_stream
write_stream-written os dirname disk e h =
    let (same_bytes, fits) = take-stream e.count e.first e.rest e.is_line h in
    elim (Option-cases (open_stream os disk (full_path dirname e.filename))) [
      | inl missing ↦ ground (arith, missing)
      | inr (file, there) ↦ ground (arith, there, same_bytes, fits)
    ]

pub apply_line-core :
    (os : Os) (dirname : Bytes) (disk : Disk) (e : Entry)
    → IsPlain e
    → apply_line os dirname disk (core e) ≡ ok (written os dirname disk e)
unfolding log_line apply_fields
apply_line-core os dirname disk e h =
    apply_line-append os dirname disk e.filename 124 _
    ∙ ap (apply_fields os dirname disk) (pieces-core e h)
    ∙ rw (stoi-to_string e.offset h.offset_fits, stoi-to_string e.count h.count_fits)
        (write_stream-written os dirname disk e h.enough)
