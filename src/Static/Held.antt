-- ===== src/Static/Held.antt =====
-- modules/phl_static.c: the descriptors and the bytes of a response.
use phorklift.Prelude.{
  ℕ, ◌+◌, ◌-◌, ◌≤◌, ◌<◌, ◌≡◌, refl, sym, ◌∙◌, ◌++◌, List, false, ◌⊎◌, inl, inr, Option, none, some,
  [], ◌∷◌, Text, ◌==◌, if◌then◌else◌, if_intro, ap, arith, subst,
}
use phorklift.Request.State.{Ret, ok, status}
use phorklift.Static.{
  FileType, directory, regular, link, other, Ranges, bad_range, ranges, Serving, Reply, no_reply,
  opens, closes, ctx_free, root_name, mime_type, partial, whole_file, with_range, range_headers,
  respond_file, check_modified, use_file, use_index, use_directory, use_opened, static_headers,
}

-- What a parser of ranges gives for a file: each of them is inside of it.
unfoldable pub IsParser : (ℕ → Ranges) → Type 0
IsParser parse =
    (size first last : ℕ)
    → parse size ≡ ranges ((first, last) ∷ [])
    → (first ≤ last) × (last < size)

abbrev or_zero : Option ℕ → ℕ
or_zero none = 0
or_zero (some n) = n

module _ (g : Serving) where
  -- Every descriptor is closed once, in the order of their opening, with the end of the request; but
  -- not the last one if it is 0.
  abbrev pub Closed : ℕ → Reply → Type 0
  Closed ctx p = (p.closed ≡ p.opened) ⊎ ((ctx ≡ 0) × (p.opened ≡ p.closed ++ 0 ∷ []))

  abbrev pub Kept : Reply → Type 0
  Kept p = Closed p.ctx (ctx_free p)

  -- No descriptor is left open, and what is announced of a file is inside of it.
  pub record Fine (x : Ret × Reply) : Type 0 where
    pub kept : Kept x.1
    pub fits :
        (n fd : ℕ)
        → (x.1).content_length ≡ some n
        → (x.1).easy_fd ≡ some fd
        → (x.1).offset + n ≤ (g.stat_of fd).size

  -- The reply when `fd` is the context, and the descriptors `dirs` are closed already.
  abbrev held : List ℕ → ℕ → Reply
  held dirs fd = record no_reply { opened = dirs ++ fd ∷ []; closed = dirs; ctx = fd }

  held-Kept :
      (dirs : List ℕ) (fd : ℕ) (p : Reply)
      → p.opened ≡ dirs ++ fd ∷ []
      → p.closed ≡ dirs
      → p.ctx ≡ fd
      → Kept p
  unfolding ctx_free
  held-Kept dirs fd p o c x =
      if_intro (Closed p.ctx) (p.ctx == 0) p (closes p.ctx p)
        (λ t.
          let z : p.ctx ≡ 0 = ground arith in
          inr (z, o ∙ ap (λ k. dirs ++ k ∷ []) (sym x ∙ z) ∙ ap (λ d. d ++ 0 ∷ []) (sym c)))
        (λ f. inl (ap (λ d. d ++ p.ctx ∷ []) c ∙ ap (λ k. dirs ++ k ∷ []) x ∙ sym o))

  kept_file : (dirs : List ℕ) (fd : ℕ) → Kept (held dirs fd)
  kept_file dirs fd = held-Kept dirs fd (held dirs fd) refl refl refl

  -- A reply for a file, before its length is known.
  abbrev for_file : List ℕ → Text → ℕ → Reply
  for_file dirs filename fd = record (held dirs fd) {
    easy_fd = some fd;
    last_modified = some ((g.stat_of fd).mtime);
    content_type = some (mime_type filename);
  }

  short-Fine : (ret : Ret) (p : Reply) → Kept p → p.content_length ≡ none → Fine (ret, p)
  short-Fine ret p k e = record { kept = k; fits = λ n fd h f. let no : ⊥ = cc in elim no [ ] }

  part-Fine :
      (dirs : List ℕ) (filename : Text) (fd offset n code : ℕ) (r : Option (ℕ × (ℕ × ℕ)))
      → offset + n ≤ (g.stat_of fd).size
      → Fine (
        ok,
        record (for_file dirs filename fd) {
          status_code = code;
          content_length = some n;
          content_range = r;
          offset = offset;
        },
      )
  part-Fine dirs filename fd offset n code r l = record {
    kept = held-Kept dirs fd _ refl refl refl;
    fits = λ n' fd' h f.
        subst (λ i. offset + n' ≤ (g.stat_of i).size) (ap or_zero f)
          (subst (λ i. offset + i ≤ (g.stat_of fd).size) (ap or_zero h) l);
  }

  with_range-Fine :
      (dirs : List ℕ) (filename : Text) (fd first last : ℕ)
      → first ≤ last
      → last < (g.stat_of fd).size
      → Fine (with_range g first last (g.stat_of fd) (for_file dirs filename fd))
  with_range-Fine dirs filename fd first last l k = go g.if_range
    where
      size : ℕ
      size = (g.stat_of fd).size

      part : Fine (partial g first last size (for_file dirs filename fd))
      part =
          part-Fine dirs filename fd first (last - first + 1) 206 (some (first, (last, size)))
            (omega arith)

      all : Fine (whole_file g (g.stat_of fd) (for_file dirs filename fd))
      all = part-Fine dirs filename fd 0 size 200 none (omega arith)

      go :
          (o : Option ℕ)
          → Fine (elim o [
            | none ↦ partial g first last size (for_file dirs filename fd)
            | some t ↦
                if t == (g.stat_of fd).mtime
                then partial g first last size (for_file dirs filename fd)
                else whole_file g (g.stat_of fd) (for_file dirs filename fd)
          ])
      go none = part
      go (some t) = if_intro Fine (t == (g.stat_of fd).mtime) _ _ (λ h. part) (λ h. all)

  whole-Fine :
      (dirs : List ℕ) (filename : Text) (fd : ℕ)
      → Fine (whole_file g (g.stat_of fd) (for_file dirs filename fd))
  whole-Fine dirs filename fd =
      part-Fine dirs filename fd 0 ((g.stat_of fd).size) 200 none (omega arith)

  range_headers-Fine :
      (dirs : List ℕ) (filename : Text) (fd : ℕ) (r : Ranges)
      → ((first last : ℕ)
          → r ≡ ranges ((first, last) ∷ [])
          → (first ≤ last) × (last < (g.stat_of fd).size))
      → Fine (range_headers g r (g.stat_of fd) (for_file dirs filename fd))
  unfolding range_headers
  range_headers-Fine dirs filename fd bad_range h =
      short-Fine (status 416) (for_file dirs filename fd) (held-Kept dirs fd _ refl refl refl) refl
  range_headers-Fine dirs filename fd (ranges []) h = whole-Fine dirs filename fd
  range_headers-Fine dirs filename fd (ranges ((first, last) ∷ [])) h =
      let b = h first last refl in with_range-Fine dirs filename fd first last (b.0) (b.1)
  range_headers-Fine dirs filename fd (ranges (r ∷ s ∷ rs)) h = whole-Fine dirs filename fd

  module _ (law : (parse : ℕ → Ranges) → g.range ≡ some parse → IsParser parse) where
    respond_file-Fine :
        (dirs : List ℕ) (filename : Text) (fd : ℕ)
        → Fine (respond_file g filename fd (g.stat_of fd) (held dirs fd))
    unfolding IsParser
    respond_file-Fine dirs filename fd =
        if_intro Fine g.is_get _ _ (λ t. go g.range refl) (λ f. whole-Fine dirs filename fd)
      where
        go :
            (o : Option (ℕ → Ranges))
            → g.range ≡ o
            → Fine (elim o [
              | none ↦ whole_file g (g.stat_of fd) (for_file dirs filename fd)
              | some parse ↦
                  range_headers g
                    (parse ((g.stat_of fd).size))
                    (g.stat_of fd)
                    (for_file dirs filename fd)
            ])
        go none e = whole-Fine dirs filename fd
        go (some parse) e =
            range_headers-Fine dirs filename fd (parse ((g.stat_of fd).size))
              (law parse e ((g.stat_of fd).size))

    check_modified-Fine :
        (dirs : List ℕ) (filename : Text) (fd : ℕ)
        → Fine (check_modified g filename fd (g.stat_of fd) (held dirs fd))
    check_modified-Fine dirs filename fd = go g.if_modified_since
      where
        answer : Ret × Reply
        answer = respond_file g filename fd (g.stat_of fd) (held dirs fd)

        go :
            (o : Option ℕ)
            → Fine (elim o [
              | none ↦ answer
              | some t ↦ if t == (g.stat_of fd).mtime then (status 304, held dirs fd) else answer
            ])
        go none = respond_file-Fine dirs filename fd
        go (some t) =
            if_intro Fine (t == (g.stat_of fd).mtime) _ _
              (λ h. short-Fine (status 304) (held dirs fd) (kept_file dirs fd) refl)
              (λ h. respond_file-Fine dirs filename fd)

    use_file-Fine :
        (dirs : List ℕ) (filename : Text) (fd : ℕ) (k : FileType)
        → Fine (
            use_file g filename fd k
              (g.stat_of fd)
              (record no_reply { opened = dirs ++ fd ∷ []; closed = dirs }))
    unfolding use_file
    use_file-Fine dirs filename fd regular = check_modified-Fine dirs filename fd
    use_file-Fine dirs filename fd link = check_modified-Fine dirs filename fd
    use_file-Fine dirs filename fd directory =
        short-Fine (status 404) (held dirs fd) (kept_file dirs fd) refl
    use_file-Fine dirs filename fd other =
        short-Fine (status 404) (held dirs fd) (kept_file dirs fd) refl

    -- A directory that is neither listed nor has an index: its descriptor is lost.
    abbrev pub IsStray : Text → ℕ → Type 0
    IsStray path fd =
        (g.open_path (root_name path) ≡ some fd)
        × ((g.stat_of fd).file_type ≡ directory)
        × (g.list_dir ≡ false)
        × (g.index ≡ none)

    abbrev pub Lost : Text → Ret × Reply → Type 0
    Lost path x =
        (fd : ℕ) × IsStray path fd
        × ((ctx_free x.1).opened ≡ fd ∷ [])
        × ((ctx_free x.1).closed ≡ [])

    abbrev pub Outcome : Text → Ret × Reply → Type 0
    Outcome path x = (((fd : ℕ) → IsStray path fd → ⊥) × Fine x) ⊎ Lost path x

    index-Fine :
        (filename : Text) (dir : ℕ) (o : Option ℕ)
        → Fine (use_index g filename dir o (opens dir no_reply))
    unfolding ctx_free
    index-Fine filename dir none =
        short-Fine (status 404) (closes dir (opens dir no_reply)) (inl refl) refl
    index-Fine filename dir (some fd) =
        use_file-Fine (dir ∷ []) filename fd ((g.stat_of fd).file_type)

    directory-Outcome :
        (path : Text) (fd : ℕ)
        → g.open_path (root_name path) ≡ some fd
        → (g.stat_of fd).file_type ≡ directory
        → Outcome path (use_directory g (root_name path) fd (opens fd no_reply))
    unfolding ctx_free
    directory-Outcome path fd e d =
        if_intro (Outcome path) g.list_dir _ _
          (λ t. inl (
            (λ k q. let l = q.2 in ground (arith, t, l)),
            short-Fine ok (closes fd (opens fd no_reply)) (inl refl) refl,
          ))
          (λ f. go f g.index refl)
      where
        go :
            g.list_dir ≡ false
            → (o : Option Text) → g.index ≡ o
            → Outcome path (elim o [
              | none ↦ (status 404, opens fd no_reply)
              | some name ↦
                  use_index g (root_name path) fd (g.open_index fd name) (opens fd no_reply)
            ])
        go f none i = inr (fd, (e, d, f, i), refl, refl)
        go f (some name) i =
            inl ((λ k q. let n = q.3 in cc), index-Fine (root_name path) fd (g.open_index fd name))

    same_type :
        (path : Text) (fd : ℕ) (k : FileType)
        → g.open_path (root_name path) ≡ some fd
        → (g.stat_of fd).file_type ≡ k
        → (j : ℕ) → IsStray path j
        → k ≡ directory
    same_type path fd k e t j q =
        sym t ∙ ap (λ i. (g.stat_of i).file_type) (ap or_zero (sym e ∙ q.0)) ∙ q.1

    opened-Outcome :
        (path : Text) (fd : ℕ) (k : FileType)
        → g.open_path (root_name path) ≡ some fd
        → (g.stat_of fd).file_type ≡ k
        → Outcome path (use_opened g (root_name path) fd k (opens fd no_reply))
    opened-Outcome path fd directory e t = directory-Outcome path fd e t
    opened-Outcome path fd regular e t = inl (
      (λ j q. let n = same_type path fd regular e t j q in cc),
      use_file-Fine [] (root_name path) fd regular,
    )
    opened-Outcome path fd link e t = inl (
      (λ j q. let n = same_type path fd link e t j q in cc),
      use_file-Fine [] (root_name path) fd link,
    )
    opened-Outcome path fd other e t = inl (
      (λ j q. let n = same_type path fd other e t j q in cc),
      use_file-Fine [] (root_name path) fd other,
    )

    -- A request for the path of a directory that is neither listed nor has an index loses the
    -- descriptor of the directory: it is opened, and not closed even when the request is closed. After
    -- any other request, once it is closed, every descriptor that was opened has been closed, once and
    -- in order, except for a file whose descriptor is 0; and the bytes that are announced of a file are
    -- inside of it. A range that the parser of libwuya gives is inside the file.
    pub static_headers-Outcome : (path : Text) → Outcome path (static_headers g path)
    unfolding static_headers ctx_free
    static_headers-Outcome path = go (g.open_path (root_name path)) refl
      where
        go :
            (o : Option ℕ)
            → g.open_path (root_name path) ≡ o
            → Outcome path (elim o [
              | none ↦ (status 404, no_reply)
              | some fd ↦
                  use_opened g (root_name path) fd ((g.stat_of fd).file_type) (opens fd no_reply)
            ])
        go none e =
            inl ((λ fd q. let n = q.0 in cc), short-Fine (status 404) no_reply (inl refl) refl)
        go (some fd) e = opened-Outcome path fd ((g.stat_of fd).file_type) e refl
