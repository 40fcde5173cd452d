-- ===== src/Ui/Lists.antt =====
-- The lists of names that the daemon prints and the web interface of crates/cloud_sync_ui reads.
use cloud_sync_lib.Base.{◌-◌, ◌≡◌, refl, ap, ◌∙◌, Bool, true, false, List, [], ◌∷◌, ◌++◌, arith}
use cloud_sync_lib.Base.Lists.{length, length-append, append-nil, All}
use cloud_sync_lib.Base.Slices.{take-append}
use cloud_sync_lib.Base.Lines.{
  trim_whitespace, trim_whitespace-framed, without_last-append, ends_with-append, is_line,
  is_line-append, is_free, is_free-append, split-append_free, split_free, trim_left, without_first,
}
use cloud_sync_lib.Base.Text.{Text, starts_with, split}
use cloud_sync_lib.Daemon.Status.{show_more, show_list, quoted}
use cloud_sync_lib.Ui.Parser.{unquote, keep_item, clean_item, items_of, list_items}

abbrev pub is_named : Text → Bool
is_named [] = false
is_named (a ∷ s) = true

pub unquote-quoted : (v : Text) → unquote (quoted v) ≡ v
unfolding unquote without_first
unquote-quoted v = without_last-append 34 v

pub is_line-quoted : (v : Text) → is_line v ≡ true → is_line (quoted v) ≡ true
is_line-quoted v h = is_line-append v (34 ∷ []) h refl

clean_item-quoted : (v : Text) → clean_item (quoted v) ≡ v
unfolding clean_item
clean_item-quoted v = ap unquote (trim_whitespace-framed 34 34 v refl refl) ∙ unquote-quoted v

clean_item-spaced : (v : Text) → clean_item (32 ∷ quoted v) ≡ v
unfolding clean_item trim_whitespace trim_left
clean_item-spaced v = clean_item-quoted v

keep_item-named : (n : Text) (ns : List Text) → is_named n ≡ true → keep_item n ns ≡ n ∷ ns
keep_item-named [] ns h = cc
keep_item-named (a ∷ n) ns h = refl

-- Between the brackets there is what is split.
list_items-bracketed :
    (body : Text) → list_items (b'[' ∷ body ++ b']' ∷ []) ≡ items_of (split b',' body)
unfolding list_items starts_with
list_items-bracketed body =
    let n : length (b'[' ∷ body ++ b']' ∷ []) - 2 ≡ length body =
      omega (arith, length-append body (b']' ∷ [])) in
    rw (ends_with-append b']' (b'[' ∷ body), n, take-append (length body) body (b']' ∷ []) refl)
      refl

module _ (debug : Text → Text) where
  -- A name that is not empty, holds no comma and no end of a line, and has nothing to escape.
  pub record IsPlain (n : Text) : Type 0 where
    pub named : is_named n ≡ true
    pub no_comma : is_free b',' n ≡ true
    pub one_line : is_line n ≡ true
    pub escapes_nothing : debug n ≡ quoted n

  pieces : List Text → List Text
  pieces [] = []
  pieces (n ∷ ns) = (32 ∷ quoted n) ∷ pieces ns

  split-show_more :
      (ns : List Text) (q : Text)
      → is_free b',' q ≡ true
      → All IsPlain ns
      → split b',' (q ++ show_more debug ns) ≡ q ∷ pieces ns
  unfolding pieces
  split-show_more [] q f h = ap (λ t. split b',' t) (append-nil q) ∙ split_free b',' q f
  split-show_more (n ∷ ns) q f h = rw h.0.escapes_nothing (
      split-append_free b',' q (32 ∷ quoted n ++ show_more debug ns) f
      ∙ ap (λ ps. q ∷ ps)
          (split-show_more ns (32 ∷ quoted n) (is_free-append b',' n (34 ∷ []) h.0.no_comma refl)
            h.1))

  items_of-pieces : (ns : List Text) → All IsPlain ns → items_of (pieces ns) ≡ ns
  unfolding pieces items_of
  items_of-pieces [] h = refl
  items_of-pieces (n ∷ ns) h =
      rw (clean_item-spaced n, items_of-pieces ns h.1) (keep_item-named n ns h.0.named)

  items_of-first :
      (n : Text) (ns : List Text) → All IsPlain (n ∷ ns) → items_of (quoted n ∷ pieces ns) ≡ n ∷ ns
  unfolding items_of
  items_of-first n ns h =
      rw (clean_item-quoted n, items_of-pieces ns h.1) (keep_item-named n ns h.0.named)

  items_of-nil : items_of (split b',' []) ≡ []
  unfolding items_of split clean_item
  items_of-nil = refl

  pub list_items-show_list :
      (ns : List Text) → All IsPlain ns → list_items (show_list debug ns) ≡ ns
  unfolding show_list
  list_items-show_list [] h = list_items-bracketed [] ∙ items_of-nil
  list_items-show_list (n ∷ ns) h = rw h.0.escapes_nothing (
      list_items-bracketed (quoted n ++ show_more debug ns)
      ∙ ap items_of
          (split-show_more ns (quoted n) (is_free-append b',' n (34 ∷ []) h.0.no_comma refl) h.1)
      ∙ items_of-first n ns h)

  is_line-show_more : (ns : List Text) → All IsPlain ns → is_line (show_more debug ns) ≡ true
  is_line-show_more [] h = refl
  is_line-show_more (n ∷ ns) h = rw h.0.escapes_nothing (
      is_line-append (quoted n) (show_more debug ns) (is_line-quoted n h.0.one_line)
        (is_line-show_more ns h.1))

  pub is_line-show_list : (ns : List Text) → All IsPlain ns → is_line (show_list debug ns) ≡ true
  unfolding show_list
  is_line-show_list [] h = refl
  is_line-show_list (n ∷ ns) h = rw h.0.escapes_nothing (
      is_line-append (quoted n ++ show_more debug ns) (b']' ∷ [])
        (is_line-append (quoted n) (show_more debug ns) (is_line-quoted n h.0.one_line)
          (is_line-show_more ns h.1))
        refl)
