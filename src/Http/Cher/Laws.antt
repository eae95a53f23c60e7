-- ===== src/Http/Cher/Laws.antt =====
-- What a cher error becomes in a response.
use dfl.Base.{
  ℕ, ◌≡◌, ◌≢◌, refl, ap, String, Bool, true, false, ◌||◌, List, [], ◌∷◌, str_eq, trim_space, arith,
  ◌==◌, ==_iff, Bool-cases, inl, inr, eq_iff, sym, ◌∙◌,
}
use dfl.GoErrors.{Error, Meta, Reason, Reasons, reason, no_reasons, and_reason, is_error, any_is}
use dfl.Http.ReqError.{ReqError, wrap, with_status, with_reasons, status_code, to_error}
use dfl.Http.Cher.{
  Cher, Chers, cher, no_chers, and_cher, Library, convert_meta, convert_reason, convert_reasons,
  top_reasons, code_or, add_reasons, coerce_cher,
}

-- The cher errors that a tree of reasons stands for.
abbrev mutual
  pub of_reason : Reason → Cher
  of_reason (reason code meta reasons) = cher code meta (of_reasons reasons)

  pub of_reasons : Reasons → Chers
  of_reasons no_reasons = no_chers
  of_reasons (and_reason r rs) = and_cher (of_reason r) (of_reasons rs)

meta_same : (m : Meta) → convert_meta m ≡ m
unfolding convert_meta
meta_same [] = refl
meta_same (e ∷ m) = refl

mutual
  unfolding convert_reason

  of_reason-convert_reason : (c : Cher) → of_reason (convert_reason c) ≡ c
  of_reason-convert_reason (cher code meta reasons) =
      rw (meta_same meta, of_reasons-convert_reasons reasons) refl

  of_reasons-convert_reasons : (cs : Chers) → of_reasons (convert_reasons cs) ≡ cs
  of_reasons-convert_reasons no_chers = refl
  of_reasons-convert_reasons (and_cher c cs) =
      rw (of_reason-convert_reason c, of_reasons-convert_reasons cs) refl

abbrev pub all_of_reasons : List Reason → Chers
all_of_reasons [] = no_chers
all_of_reasons (r ∷ rs) = and_cher (of_reason r) (all_of_reasons rs)

all_of_reasons-top_reasons : (cs : Chers) → all_of_reasons (top_reasons cs) ≡ cs
unfolding top_reasons
all_of_reasons-top_reasons no_chers = refl
all_of_reasons-top_reasons (and_cher c cs) =
    rw (of_reason-convert_reason c, all_of_reasons-top_reasons cs) refl

code_or-nonempty : (unknown code : String) → unknown ≢ "" → code_or unknown code ≢ ""
code_or-nonempty unknown code h bad = elim (Bool-cases (str_eq code "")) [
  | inl blank ↦ h (rw blank at bad)
  | inr full ↦
      (let same : code ≡ "" = rw full at bad in
        let yes = (eq_iff code "").1 same in let clash : false ≡ true = sym full ∙ yes in cc)
]

-- A response error with the reasons added, and all else as it was.
record IsExtended (out : ReqError) (reasons : List Reason) (out' : ReqError) : Type 0 where
  coded : out'.code ≡ out.code
  same_meta : out'.meta ≡ out.meta
  same_status : out'.status ≡ out.status
  same_causes : out'.causes ≡ out.causes
  added : out.reasons ≡ [] → out'.reasons ≡ reasons

add_reasons-IsExtended :
    (out : ReqError) (rs : List Reason) → IsExtended out rs (add_reasons out rs)
unfolding with_reasons
add_reasons-IsExtended out [] = record {
  coded = refl;
  same_meta = refl;
  same_status = refl;
  same_causes = refl;
  added = λ h. h;
}
add_reasons-IsExtended out (r ∷ rs) = record {
  coded = refl;
  same_meta = refl;
  same_status = refl;
  same_causes = refl;
  added = λ h. rw h refl;
}

status_code_set : (q : ReqError) → q.status ≢ 0 → status_code q ≡ q.status
unfolding status_code
status_code_set q h = elim (Bool-cases (q.status == 0)) [
  | inl zeroed ↦ absurd (h ((==_iff q.status 0).0 zeroed))
  | inr given ↦ ground (arith, given)
]

or_false : (b : Bool) → (b || false) ≡ b
or_false true = refl
or_false false = refl

-- A cher error as a response, under a library whose statuses are not 0 and whose code for unknown errors
-- is not blank: the response's code is not empty and its status is the library's for that very code,
-- the metadata and the whole tree of reasons can be read back, and errors.Is finds what it found.
pub coerce_cher_lem :
    (lib : Library) (err : Error) (raw : String) (meta : Meta) (reasons : Chers) (t : ℕ)
    → lib.unknown ≢ ""
    → ((code : String) → lib.status_of code ≢ 0)
    → ((coerce_cher lib err (cher raw meta reasons)).code ≢ "")
      × (status_code (coerce_cher lib err (cher raw meta reasons))
          ≡ lib.status_of (coerce_cher lib err (cher raw meta reasons)).code)
      × ((coerce_cher lib err (cher raw meta reasons)).meta ≡ meta)
      × (all_of_reasons (coerce_cher lib err (cher raw meta reasons)).reasons ≡ reasons)
      × (is_error t (to_error (coerce_cher lib err (cher raw meta reasons))) ≡ is_error t err)
unfolding coerce_cher wrap with_status is_error
coerce_cher_lem lib err raw meta reasons t named positive =
    let code = code_or lib.unknown (trim_space raw) in
    let base = with_status (wrap err code (convert_meta meta) []) (lib.status_of code) in
    let ext = add_reasons-IsExtended base (top_reasons reasons) in
    (
      λ bad. code_or-nonempty lib.unknown (trim_space raw) named (sym ext.coded ∙ bad),
      status_code_set (add_reasons base (top_reasons reasons))
            (λ bad. positive code (sym ext.same_status ∙ bad))
          ∙ ext.same_status
          ∙ ap lib.status_of (sym ext.coded),
      ext.same_meta ∙ meta_same meta,
      ap all_of_reasons (ext.added refl) ∙ all_of_reasons-top_reasons reasons,
      ap (any_is t) ext.same_causes ∙ or_false (is_error t err),
    )
