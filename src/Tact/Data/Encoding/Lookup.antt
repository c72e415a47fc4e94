-- ===== src/Tact/Data/Encoding/Lookup.antt =====
-- `FindFile` on an encoding manifest, against the list of all its entries.
use tactmon.Prelude.{
  ◌≡◌, refl, sym, ap, ◌∙◌, inl, inr, true, false, none, some, List, [], ◌∷◌, ◌++◌, arith,
  Bool-cases, length, All, length-append,
}
use tactmon.Tact.Data.Encoding.{
  Header, Entry, Encoding, is_for, location_of, find_in_page, find_in_pages, find_file, count,
}
use tactmon.Tact.Key.{Key}

-- The entries of all pages, in the order of the pages.
abbrev pub all_entries : List (List Entry) → List Entry
all_entries [] = []
all_entries (page ∷ pages) = page ++ all_entries pages

-- `count` is the number of all entries.
pub count-all_entries : (pages : List (List Entry)) → count pages ≡ length (all_entries pages)
unfolding count
count-all_entries [] = refl
count-all_entries (page ∷ pages) =
    omega (arith, count-all_entries pages, length-append page (all_entries pages))

find_in_page-append :
    (h : Header) (key : Key) (xs ys : List Entry)
    → find_in_page h key (xs ++ ys)
      ≡ elim (find_in_page h key xs) [ some l ↦ some l | none ↦ find_in_page h key ys ]
unfolding find_in_page
find_in_page-append h key [] ys = refl
find_in_page-append h key (x ∷ xs) ys = elim (Bool-cases (is_for h key x)) [
  | inl yes' ↦ rw yes'
  | inr no' ↦ rw no' (find_in_page-append h key xs ys)
]

find_in_pages-all_entries :
    (h : Header) (key : Key) (pages : List (List Entry))
    → find_in_pages h key pages ≡ find_in_page h key (all_entries pages)
find_in_pages-all_entries h key [] = unfold find_in_pages find_in_page in refl
find_in_pages-all_entries h key (page ∷ pages) =
    pages_step
    ∙ ap (λ o. elim (find_in_page h key page) [ some l ↦ some l | none ↦ o ])
        (find_in_pages-all_entries h key pages)
    ∙ sym (find_in_page-append h key page (all_entries pages))
  where
    pages_step :
        find_in_pages h key (page ∷ pages)
        ≡ elim (find_in_page h key page) [ some l ↦ some l | none ↦ find_in_pages h key pages ]
    pages_step = unfold find_in_pages in refl

-- The entries before the one that is found are for other keys.
abbrev pub NoneFor : Header → Key → List Entry → Type 0
NoneFor h key = All (λ e. is_for h key e ≡ false)

find_in_page-first :
    (h : Header) (key : Key) (before after : List Entry) (e : Entry)
    → NoneFor h key before
    → is_for h key e ≡ true
    → find_in_page h key (before ++ (e ∷ after)) ≡ some (location_of h e)
unfolding find_in_page
find_in_page-first h key [] after e n f = rw f
find_in_page-first h key (x ∷ before) after e (p, n) f =
    rw p (find_in_page-first h key before after e n f)

find_in_page-missing :
    (h : Header) (key : Key) (es : List Entry) → NoneFor h key es → find_in_page h key es ≡ none
unfolding find_in_page
find_in_page-missing h key [] n = refl
find_in_page-missing h key (x ∷ es) (p, n) = rw p (find_in_page-missing h key es n)

-- Where an entry of the pages, taken one behind the other, is for the key and none before it is,
-- `FindFile` of the encoding manifest gives the location of that entry, whichever page it stands
-- on.
pub find_file-first :
    (m : Encoding) (key : Key) (before after : List Entry) (e : Entry)
    → all_entries m.pages ≡ before ++ (e ∷ after)
    → NoneFor m.header key before
    → is_for m.header key e ≡ true
    → find_file m key ≡ some (location_of m.header e)
unfolding find_file
find_file-first m key before after e split n f =
    find_in_pages-all_entries m.header key m.pages
    ∙ ap (find_in_page m.header key) split
    ∙ find_in_page-first m.header key before after e n f

-- `FindFile` gives nothing where no entry of any page is for the key.
pub find_file-missing :
    (m : Encoding) (key : Key) → NoneFor m.header key (all_entries m.pages) → find_file m key ≡ none
unfolding find_file
find_file-missing m key n =
    find_in_pages-all_entries m.header key m.pages
    ∙ find_in_page-missing m.header key (all_entries m.pages) n
