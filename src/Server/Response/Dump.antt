-- ===== src/Server/Response/Dump.antt =====
-- What `dump_to_buff` writes, and where it stops.
use dlg_service.Prelude.{
  ℕ, ◌+◌, ◌%◌, ◌^◌, ◌≤◌, ◌⊎◌, ◌&&◌, Bool, Bool-cases, ◌<◌, ◌≡◌, refl, ap, ◌∙◌, sym, subst, some, [],
  ◌∷◌, ◌++◌, ltb, ◌==◌, ==_refl, if◌then◌else◌, Bytes, true, false, length, length-append, take,
  arith, inl, inr,
}
use mathlib.Core.List.{append-nil}
use dlg_service.Server.Response.{
  HttpResponse, content_length_field, atoi_from, atoi, filled, Dumped, outside, failed, dumped,
  store_bytes, decimal, fill_content, dump_content, dump_to_buff,
}
use dlg_service.Server.Response.Buffer.{
  bytes_of, take_all, bytes_of_before, IsWritten, stored-IsWritten,
}
use dlg_service.Server.Response.Head.{response_head, dump_head}
use dlg_service.Server.Response.Decimal.{atoi_from-decimal, length-decimal}

-- Where `content_len + 10` does not wrap, the block holds the content.
pub fill_content-filled :
    (r : HttpResponse) (content : Bytes)
    → length content + 10 < 2 ^ 32
    → fill_content (length content) content r ≡ some (filled (length content) content r)
unfolding fill_content
fill_content-filled r content s =
    let room : ltb ((length content + 10) % 2 ^ 32) (length content) ≡ false = ground arith in
    rw room refl

module _ (max_dest_len : ℕ) where
  -- The two tests of `dump_to_buff`.
  abbrev is_over : ℕ → ℕ → Bool
  is_over h b = ltb ((h + b) % 2 ^ 32) (2 ^ 31) && ltb max_dest_len ((h + b) % 2 ^ 32)

  abbrev is_under : ℕ → ℕ → Bool
  is_under h b = ltb b (2 ^ 31) && ltb (h + b) max_dest_len

  -- The buffer's length is an int, or else the content's is.
  abbrev pub IsInt : ℕ → Type 0
  IsInt b = (max_dest_len < 2 ^ 31) ⊎ (b < 2 ^ 31)

  not_over : (h b : ℕ) → IsInt b → h < 2 ^ 31 → h + b < max_dest_len → is_over h b ≡ false
  not_over h b (inl i) t l = ground arith
  not_over h b (inr i) t l = ground arith

  is_under_lem : (h b : ℕ) → IsInt b → h + b < max_dest_len → is_under h b ≡ true
  is_under_lem h b (inl i) l = ground arith
  is_under_lem h b (inr i) l = ground arith

  not_under : (h b : ℕ) → max_dest_len ≤ h + b → is_under h b ≡ false
  not_under h b l = ground arith

  is_over_lem : (h b : ℕ) → max_dest_len < h + b → h + b < 2 ^ 31 → is_over h b ≡ true
  is_over_lem h b l t = ground arith

  -- the sum is negative, or it wraps and is less than the head
  wrapped :
      (h b : ℕ)
      → IsInt b
      → h ≤ max_dest_len
      → h < 2 ^ 31
      → b < 2 ^ 32
      → 2 ^ 31 ≤ h + b
      → is_over h b ≡ false
  wrapped h b (inl i) l t k w = ground arith
  wrapped h b (inr i) l t k w = ground arith

  content_length :
      (r : HttpResponse) (v : Bytes) (h b : ℕ) (dest : ℕ → ℕ)
      → r.field_vals content_length_field ≡ some v
      → atoi v ≡ b
      → dump_content max_dest_len r dest h ≡ (
          if is_over h b
          then failed
          else if is_under h b
          then dumped
              (store_bytes (h + b) (0 ∷ []) (store_bytes h (take b r.content_buff) dest))
              (h + b)
          else outside)
  unfolding dump_content
  content_length r v h b dest e n = rw (e, dump_content) (rw n refl)

  -- the content behind the head
  dump_content-text :
      (r : HttpResponse) (v head : Bytes) (dest : ℕ → ℕ) (h : ℕ)
      → r.field_vals content_length_field ≡ some v
      → atoi v ≡ length r.content_buff
      → IsWritten max_dest_len head dest h
      → IsInt (length r.content_buff)
      → h < 2 ^ 31
      → h + length r.content_buff < max_dest_len
      → (d : ℕ → ℕ) × (dump_content max_dest_len r dest h ≡ dumped d (h + length r.content_buff))
        × (bytes_of d 0 (h + length r.content_buff) ≡ head ++ r.content_buff)
        × (d (h + length r.content_buff) ≡ 0)
  unfolding store_bytes
  dump_content-text r v head dest h e n w i t l =
      let b = length r.content_buff in
      let over = not_over h b i t l in
      let under = is_under_lem h b i l in
      let content = store_bytes h (take b r.content_buff) dest in
      let whole : take b r.content_buff ≡ r.content_buff ++ [] =
        take_all b r.content_buff (omega arith) ∙ sym (append-nil r.content_buff) in
      (
        store_bytes (h + b) (0 ∷ []) content,
        content_length r v h b dest e n ∙ (rw (over, under) refl),
        bytes_of_before (h + b) 0 (h + b) (0 ∷ []) content (omega arith)
            ∙ (stored-IsWritten max_dest_len head r.content_buff (take b r.content_buff) dest h w
                  (λ k. ([], whole))).bytes
                l,
        (let self : (h + b == h + b) ≡ true = ==_refl (h + b) in rw self refl),
      )

  -- What dump_to_buff makes of a response with a content, by the length of head and content.
  pub record IsDumped (r : HttpResponse) (result : Dumped) : Type 0 where
    pub fits :
        length (response_head r ++ r.content_buff) < max_dest_len
        → (d : ℕ → ℕ) × (result ≡ dumped d (length (response_head r ++ r.content_buff)))
          × (bytes_of d 0 (length (response_head r ++ r.content_buff))
              ≡ response_head r ++ r.content_buff)
          × (d (length (response_head r ++ r.content_buff)) ≡ 0)
    pub too_long :
        max_dest_len < length (response_head r ++ r.content_buff)
        → length (response_head r ++ r.content_buff) < 2 ^ 31
        → result ≡ failed
    pub as_long : length (response_head r ++ r.content_buff) ≡ max_dest_len → result ≡ outside
    pub too_long_for_int :
        max_dest_len ≤ length (response_head r ++ r.content_buff)
        → 2 ^ 31 ≤ length (response_head r ++ r.content_buff)
        → result ≡ outside

  dump_to_buff-IsDumped :
      (r : HttpResponse) (v : Bytes) (dest : ℕ → ℕ)
      → r.field_vals content_length_field ≡ some v
      → atoi v ≡ length r.content_buff
      → IsInt (length r.content_buff)
      → length r.content_buff < 2 ^ 32
      → length (response_head r) < 2 ^ 31
      → length (response_head r) ≤ max_dest_len
      → IsDumped r (dump_to_buff max_dest_len r dest)
  dump_to_buff-IsDumped r v dest e n i small t l =
      let (d, h, q, w) = dump_head max_dest_len r dest l in
      let b = length r.content_buff in
      let total : length (response_head r ++ r.content_buff) ≡ h + b =
        length-append (response_head r) r.content_buff ∙ ap (λ k. k + b) w.size in
      let head : h ≡ length (response_head r) = sym w.size in
      let not_int : 2 ^ 31 ≤ h + b → is_over h b ≡ false =
        λ k. wrapped h b i (omega (arith, head)) (omega (arith, head)) small k in
      let other : is_over h b ≡ false
          → max_dest_len ≤ h + b
          → dump_to_buff max_dest_len r dest ≡ outside =
        λ over k. q ∙ content_length r v h b d e n ∙ (rw (over, not_under h b k) refl) in
      record {
        fits = λ k. rw total (
            let (d', p, s, z) =
              dump_content-text r v (response_head r) d h e n w i (omega (arith, head))
                (omega (arith, total)) in
            (d', q ∙ p, s, z));
        too_long = λ k m.
            let over = is_over_lem h b (omega (arith, total)) (omega (arith, total)) in
            q ∙ content_length r v h b d e n ∙ (rw over refl);
        as_long = λ k. elim (Bool-cases (ltb (h + b) (2 ^ 31))) [
          | inl int ↦ other (same_length h b (omega (arith, total)) int) (omega (arith, total))
          | inr wide ↦ other (not_int (ltb_false wide)) (omega (arith, total))
        ];
        too_long_for_int = λ k m. other (not_int (omega (arith, total))) (omega (arith, total));
      }
    where
      same_length :
          (h b : ℕ) → h + b ≡ max_dest_len → ltb (h + b) (2 ^ 31) ≡ true → is_over h b ≡ false
      same_length h b k m = ground arith

      ltb_false : {a b : ℕ} → ltb a b ≡ false → b ≤ a
      ltb_false h = ground arith

  field_vals-filled :
      (r : HttpResponse) (content : Bytes)
      → (filled (length content) content r).field_vals content_length_field
        ≡ some (take 99 (decimal (length content)))
  unfolding filled
  field_vals-filled r content = refl

  pub content_buff-filled :
      (r : HttpResponse) (content : Bytes)
      → (filled (length content) content r).content_buff ≡ content
  unfolding filled
  content_buff-filled r content = take_all (length content) content (omega arith)

  -- `atoi` reads back the length that is printed.
  atoi-length :
      (content : Bytes)
      → length content < 2 ^ 32
      → atoi (take 99 (decimal (length content))) ≡ length content
  unfolding atoi
  atoi-length content s =
      let read : atoi_from 0 (take 99 (decimal (length content))) ≡ length content =
        ap (atoi_from 0) (
          take_all 99 (decimal (length content)) (omega (arith, length-decimal (length content) s)))
        ∙ atoi_from-decimal (length content) in
      rw read (omega arith)

  pub dump_to_buff-filled :
      (r : HttpResponse) (content : Bytes) (dest : ℕ → ℕ)
      → IsInt (length content)
      → length content < 2 ^ 32
      → length (response_head (filled (length content) content r)) < 2 ^ 31
      → length (response_head (filled (length content) content r)) ≤ max_dest_len
      → IsDumped
          (filled (length content) content r)
          (dump_to_buff max_dest_len (filled (length content) content r) dest)
  dump_to_buff-filled r content dest i s t l =
      let same = ap length (content_buff-filled r content) in
      dump_to_buff-IsDumped (filled (length content) content r) (take 99 (decimal (length content)))
        dest (field_vals-filled r content) (atoi-length content s ∙ sym same)
        (subst IsInt (sym same) i) (omega (arith, same)) t l

  -- For a content of less than 2^32 - 10 bytes fillContent does not write outside its block.
  -- dump_to_buff of the response that it makes, into a buffer of less than 2^31 bytes that its head
  -- fits: where head and content are shorter than the buffer, it writes them with a NUL behind and
  -- gives their length; where they are longer, but less than 2^31 bytes, it returns -1; and where
  -- they are just as long, or have 2^31 bytes or more, it writes outside the buffer.
  pub dump_to_buff-fill_content :
      (r : HttpResponse) (content : Bytes) (dest : ℕ → ℕ)
      → length content + 10 < 2 ^ 32
      → max_dest_len < 2 ^ 31
      → length (response_head (filled (length content) content r)) ≤ max_dest_len
      → (fill_content (length content) content r ≡ some (filled (length content) content r))
        × IsDumped
            (filled (length content) content r)
            (dump_to_buff max_dest_len (filled (length content) content r) dest)
  dump_to_buff-fill_content r content dest s m l = (
    fill_content-filled r content s,
    dump_to_buff-filled r content dest (inl m) (omega arith) (omega arith) l,
  )
