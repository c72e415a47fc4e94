-- ===== src/Ribbit/Execute/Laws.antt =====
-- The requests, and the part of an answer that is taken.
use tactmon.Prelude.{◌≡◌, refl, Option, none, some, List, [], ◌∷◌, ◌++◌, Bytes, All, Result, ok}
use tactmon.Ribbit.Execute.{
  Region, Version, Command, product_cdns, product_bgdl, command_text, host, execute, first_parsed,
  parse_answer, parse_core,
}

-- The request for background downloads is, letter for letter, the request for the CDNs, whatever
-- the version of the protocol and the product.
pub bgdl-same_request :
    (v : Version) (product : Bytes)
    → command_text product_bgdl v product ≡ command_text product_cdns v product
unfolding command_text
bgdl-same_request v product = refl

-- Parts that do not parse.
abbrev pub Unparsed : {A : Type 0} → (Bytes → Result (Option A)) → List Bytes → Type 0
Unparsed parse = All (λ p. parse p ≡ ok none)

first_parsed-first :
    {A : Type 0} (parse : Bytes → Result (Option A)) (before after : List Bytes) (part : Bytes)
    (a : A)
    → Unparsed parse before
    → parse part ≡ ok (some a)
    → first_parsed parse (before ++ (part ∷ after)) ≡ ok (some a)
unfolding first_parsed
first_parsed-first parse [] after part a u h = rw h
first_parsed-first parse (x ∷ before) after part a (p, u) h =
    rw p (first_parsed-first parse before after part a u h)

first_parsed-none :
    {A : Type 0} (parse : Bytes → Result (Option A)) (parts : List Bytes)
    → Unparsed parse parts
    → first_parsed parse parts ≡ ok none
unfolding first_parsed
first_parsed-none parse [] u = refl
first_parsed-none parse (x ∷ parts) (p, u) = rw p (first_parsed-none parse parts u)

module _ {A : Type 0} (exchange : Bytes → Bytes → Option Bytes) (boundary : Bytes → Option Bytes)
    (c : Command) (v : Version) (parse : Bytes → Result (Option A)) (region : Region)
    (product : Bytes) where
  -- Where the host answers and the parts of the answer before some part do not parse, but that
  -- one does, `Execute` gives its value, whatever stands in the parts behind it.
  pub execute-first :
      (response part : Bytes) (before after : List Bytes) (a : A)
      → exchange (host region) (command_text c v product) ≡ some response
      → parse_core boundary v response ≡ ok (before ++ (part ∷ after))
      → Unparsed parse before
      → parse part ≡ ok (some a)
      → execute exchange boundary c v parse region product ≡ ok (some a)
  unfolding execute parse_answer
  execute-first response part before after a e k u h =
      rw (e, execute, k) (first_parsed-first parse before after part a u h)

  -- `Execute` gives nothing where the exchange fails.
  pub execute_silent :
      exchange (host region) (command_text c v product) ≡ none
      → execute exchange boundary c v parse region product ≡ ok none
  unfolding execute
  execute_silent e = rw (e, execute)

  -- `Execute` gives nothing where no part of the answer parses.
  pub execute-Unparsed :
      (response : Bytes) (parts : List Bytes)
      → exchange (host region) (command_text c v product) ≡ some response
      → parse_core boundary v response ≡ ok parts
      → Unparsed parse parts
      → execute exchange boundary c v parse region product ≡ ok none
  unfolding execute parse_answer
  execute-Unparsed response parts e k u = rw (e, execute, k) (first_parsed-none parse parts u)
