-- ===== src/Server/Response/Head.antt =====
-- What `dump_to_buff` of src/http_server/HttpResponse.cpp writes in front of the content.
use dlg_service.Prelude.{
  ℕ, zero, suc, ◌+◌, ◌≤◌, ◌≡◌, refl, ap, ◌∙◌, sym, subst, Option, none, some, [], ◌∷◌, ◌++◌, Bytes,
  length, length-append, get_or, arith, Option-cases, inl, inr,
}
use mathlib.Core.List.{append_assoc, append-nil}
use dlg_service.Server.Response.{
  HttpResponse, http_response_field_count, Dumped, dumped, print_at, print_fields, dump_content,
  dump_end, dump_to_buff,
}
use dlg_service.Server.Response.Buffer.{bytes_of, IsWritten, print_at-IsWritten}
use dlg_service.Server.Response.Tables.{
  line_sep, http_res_version_str, http_response_field_names, status_code_str,
}

-- The lines of the fields from number `i` on.
unfoldable pub field_lines : ℕ → ℕ → (ℕ → Option Bytes) → Bytes
field_lines zero i field_vals = []
field_lines (suc rounds) i field_vals = elim (field_vals i) [
  | none ↦ field_lines rounds (suc i) field_vals
  | some v ↦
      (get_or http_response_field_names i [] ++ (v ++ line_sep))
      ++ field_lines rounds (suc i) field_vals
]

abbrev pub status_line : HttpResponse → Bytes
status_line r =
    get_or http_res_version_str r.version []
    ++ b' ' ∷ (get_or status_code_str r.code [] ++ line_sep)

-- The head of a response.
unfoldable pub response_head : HttpResponse → Bytes
response_head r =
    (status_line r ++ field_lines http_response_field_count 0 r.field_vals) ++ line_sep

module _ (max_dest_len : ℕ) where
  -- It goes on, and the buffer holds a text.
  abbrev pub Leaves : Bytes → Dumped → Type 0
  Leaves text r =
      (dest : ℕ → ℕ) × (h : ℕ) × (r ≡ dumped dest h) × IsWritten max_dest_len text dest h

  field_lines-none :
      (rounds i : ℕ) (vals : ℕ → Option Bytes)
      → vals i ≡ none
      → field_lines (suc rounds) i vals ≡ field_lines rounds (suc i) vals
  unfolding field_lines
  field_lines-none rounds i vals e = rw (e, field_lines) refl

  field_lines-some :
      (rounds i : ℕ) (vals : ℕ → Option Bytes) (v : Bytes)
      → vals i ≡ some v
      → field_lines (suc rounds) i vals
        ≡ (get_or http_response_field_names i [] ++ (v ++ line_sep))
          ++ field_lines rounds (suc i) vals
  unfolding field_lines
  field_lines-some rounds i vals v e = rw (e, field_lines) refl

  print_fields-Leaves :
      (rounds i : ℕ) (vals : ℕ → Option Bytes) (before : Bytes) (dest : ℕ → ℕ) (h : ℕ)
      → IsWritten max_dest_len before dest h
      → h + length (field_lines rounds i vals) ≤ max_dest_len
      → Leaves
          (before ++ field_lines rounds i vals)
          (print_fields max_dest_len rounds i vals dest h)
  unfolding print_fields
  print_fields-Leaves zero i vals before dest h w l =
      let nothing : field_lines zero i vals ≡ [] = unfold field_lines in refl in
      (
        dest,
        h,
        refl,
        subst (λ t. IsWritten max_dest_len t dest h)
            (sym (ap (λ t. before ++ t) nothing ∙ append-nil before)) w,
      )
  print_fields-Leaves (suc rounds) i vals before dest h w l = elim (Option-cases (vals i)) [
    | inl e ↦
        let lines = field_lines-none rounds i vals e in
        let (d, k, q, x) =
          print_fields-Leaves rounds (suc i) vals before dest h w
            (omega (arith, ap length lines)) in
        (
          d,
          k,
          rw (e, print_fields) q,
          subst (λ t. IsWritten max_dest_len (before ++ t) d k) (sym lines) x,
        )
    | inr (v, e) ↦
        let name = get_or http_response_field_names i [] in
        let line = name ++ (v ++ line_sep) in
        let rest = field_lines rounds (suc i) vals in
        let lines = field_lines-some rounds i vals v e in
        let long : length (field_lines (suc rounds) i vals) ≡ length line + length rest =
          ap length lines ∙ length-append line rest in
        let size : length line ≡ length name + (length v + length line_sep) =
          length-append name (v ++ line_sep)
          ∙ ap (λ n. length name + n) (length-append v line_sep) in
        let (d, q, x) =
          print_at-IsWritten max_dest_len before line (length name + (length v + length line_sep))
            dest h w (omega (arith, long)) size in
        let (d', k, q', x') =
          print_fields-Leaves rounds (suc i) vals (before ++ line) d (h + length line) x
            (omega (arith, long)) in
        (
          d',
          k,
          rw (e, print_fields) (rw q q'),
          subst (λ t. IsWritten max_dest_len t d' k)
              (append_assoc before line rest ∙ ap (λ t. before ++ t) (sym lines)) x',
        )
  ]

  dump_run :
      (r : HttpResponse) (dest d : ℕ → ℕ) (h : ℕ) (d' : ℕ → ℕ) (h' : ℕ) (d'' : ℕ → ℕ) (h'' : ℕ)
      → print_at max_dest_len
          (status_line r)
          (length (get_or http_res_version_str r.version [])
            + (1 + (length (get_or status_code_str r.code []) + length line_sep)))
          dest
          0
        ≡ dumped d h
      → print_fields max_dest_len http_response_field_count 0 r.field_vals d h ≡ dumped d' h'
      → print_at max_dest_len line_sep (length line_sep) d' h' ≡ dumped d'' h''
      → dump_to_buff max_dest_len r dest ≡ dump_content max_dest_len r d'' h''
  unfolding dump_to_buff dump_end
  dump_run r dest d h d' h' d'' h'' p q s = rw (p, dump_to_buff) (rw q (rw (s, dump_end) refl))

  -- what the head leaves, in front of the content
  pub dump_head :
      (r : HttpResponse) (dest : ℕ → ℕ)
      → length (response_head r) ≤ max_dest_len
      → (d : ℕ → ℕ) × (h : ℕ) × (dump_to_buff max_dest_len r dest ≡ dump_content max_dest_len r d h)
        × IsWritten max_dest_len (response_head r) d h
  unfolding response_head
  dump_head r dest l =
      let version = get_or http_res_version_str r.version [] in
      let code = get_or status_code_str r.code [] in
      let lines = field_lines http_response_field_count 0 r.field_vals in
      let all = length-append (status_line r ++ lines) line_sep in
      let some_lines = length-append (status_line r) lines in
      let size : length (status_line r) ≡ length version + (1 + (length code + length line_sep)) =
        omega
          (arith, length-append version (b' ' ∷ (code ++ line_sep)), length-append code line_sep) in
      let fits : length ((status_line r ++ lines) ++ line_sep) ≤ max_dest_len = l in
      let start : IsWritten max_dest_len [] dest 0 = record {
        size = refl;
        bytes = λ k. unfold bytes_of in refl;
      } in
      let (d, q, x) =
        print_at-IsWritten max_dest_len [] (status_line r)
          (length version + (1 + (length code + length line_sep))) dest 0 start (omega arith)
          size in
      let (d', h', q', x') =
        print_fields-Leaves http_response_field_count 0 r.field_vals (status_line r) d
          (0 + length (status_line r)) x (omega (arith, fits, all, some_lines)) in
      let (d'', q'', x'') =
        print_at-IsWritten max_dest_len (status_line r ++ lines) line_sep (length line_sep) d' h' x'
          (omega (arith, fits, all, x'.size)) refl in
      (
        d'',
        h' + length line_sep,
        dump_run r dest d (0 + length (status_line r)) d' h' d'' (h' + length line_sep) q q' q'',
        x'',
      )
