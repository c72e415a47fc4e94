-- ===== src/Tact/Data/Product/Resolve.antt =====
-- The order in which a resource is looked for: the servers in turn, on each the cache and then the
-- hosts in turn.
use tactmon.Prelude.{
  ◌≡◌, refl, sym, ap, ◌∙◌, Option, none, some, List, [], ◌∷◌, ◌++◌, Bytes, Fault, Result, ok, fault,
}
use mathlib.Core.List.{append-nil}
use tactmon.Ribbit.Records.{CdnsRecord}
use tactmon.Tact.Data.Product.{or_next, parse_download, from_hosts, resolve}

module _ {ℓ κ ι} {A : Type ℓ} {F : Type κ} {W : Type ι} (cached : Bytes → W → Result (Option A) × W)
    (download : Bytes → Bytes → W → Result (Option F) × W) (parser : F → Result (Option A)) where
  -- Hosts that give no resource, one behind the other: the download gives nothing, or its parser
  -- does. The states are those before and behind them.
  pub data HostsFail (path : Bytes) : List Bytes → W → W → Type (ℓ ⊔ κ ⊔ ι) where
    no_hosts : {w : W} → HostsFail path [] w w
    no_answer :
        {hosts : List Bytes} {w v u : W} (host : Bytes)
        → download host path w ≡ (ok none, v)
        → HostsFail path hosts v u
        → HostsFail path (host ∷ hosts) w u
    not_parsed :
        {hosts : List Bytes} {w v u : W} (host : Bytes) (f : F)
        → download host path w ≡ (ok (some f), v)
        → parser f ≡ ok none
        → HostsFail path hosts v u
        → HostsFail path (host ∷ hosts) w u

  -- Servers that have no resource: the cache has none of the path, and none of the hosts gives one.
  pub data ServersFail (path_of : CdnsRecord → Result Bytes)
      : List CdnsRecord → W → W → Type (ℓ ⊔ κ ⊔ ι) where
    no_servers : {w : W} → ServersFail path_of [] w w
    server_fails :
        {cdns : List CdnsRecord} {w v u t : W} (cdn : CdnsRecord) (path : Bytes)
        → path_of cdn ≡ ok path
        → cached path w ≡ (ok none, v)
        → HostsFail path cdn.hosts v u
        → ServersFail path_of cdns u t
        → ServersFail path_of (cdn ∷ cdns) w t

  -- What a download and its parser end in: the parser is called where there is a download.
  pub data Ends (path host : Bytes) (w : W) : Result (Option A) → W → Type (ℓ ⊔ κ ⊔ ι) where
    thrown :
        {v : W} (e : Fault) → download host path w ≡ (fault e, v) → Ends path host w (fault e) v
    unparsable :
        {v : W} (e : Fault) (f : F)
        → download host path w ≡ (ok (some f), v)
        → parser f ≡ fault e
        → Ends path host w (fault e) v
    parsed :
        {v : W} (a : A) (f : F)
        → download host path w ≡ (ok (some f), v)
        → parser f ≡ ok (some a)
        → Ends path host w (ok (some a)) v

  from_hosts-cons :
      (path host : Bytes) (rest : List Bytes) (w : W) (d : Result (Option F) × W)
      → download host path w ≡ d
      → from_hosts cached download parser path (host ∷ rest) w
        ≡ or_next (parse_download parser d) (from_hosts cached download parser path rest)
  unfolding from_hosts
  from_hosts-cons path host rest w d e =
      ap (λ x. or_next (parse_download parser x) (from_hosts cached download parser path rest)) e

  from_hosts-skip :
      (path : Bytes) (before rest : List Bytes) {w u : W}
      → HostsFail path before w u
      → from_hosts cached download parser path (before ++ rest) w
        ≡ from_hosts cached download parser path rest u
  unfolding or_next parse_download
  from_hosts-skip path _ rest no_hosts = refl
  from_hosts-skip path _ rest (no_answer {hosts = hosts} {w = w} {v = v} host d h) =
      from_hosts-cons path host (hosts ++ rest) w (ok none, v) d ∙ from_hosts-skip path hosts rest h
  from_hosts-skip path _ rest (not_parsed {hosts = hosts} {w = w} {v = v} host f d p h) =
      from_hosts-cons path host (hosts ++ rest) w (ok (some f), v) d
      ∙ ap (λ x. or_next (x, v) (from_hosts cached download parser path (hosts ++ rest))) p
      ∙ from_hosts-skip path hosts rest h

  -- Whatever would follow is not called for.
  ends_lem :
      (path host : Bytes) (next : W → Result (Option A) × W) {w v : W} {r : Result (Option A)}
      → Ends path host w r v
      → (or_next (parse_download parser (download host path w)) next ≡ (r, v))
        × (or_next (r, v) next ≡ (r, v))
  unfolding or_next parse_download
  ends_lem path host next (thrown e d) = (ap (λ x. or_next (parse_download parser x) next) d, refl)
  ends_lem path host next (unparsable {v = v} e f d p) =
      (ap (λ x. or_next (parse_download parser x) next) d ∙ ap (λ x. or_next (x, v) next) p, refl)
  ends_lem path host next (parsed {v = v} a f d p) =
      (ap (λ x. or_next (parse_download parser x) next) d ∙ ap (λ x. or_next (x, v) next) p, refl)

  resolve-cons :
      (path_of : CdnsRecord → Result Bytes) (cdn : CdnsRecord) (rest : List CdnsRecord)
      (path : Bytes) (w v : W)
      → path_of cdn ≡ ok path
      → cached path w ≡ (ok none, v)
      → resolve cached download parser path_of (cdn ∷ rest) w
        ≡ or_next
            (from_hosts cached download parser path cdn.hosts v)
            (resolve cached download parser path_of rest)
  unfolding resolve or_next
  resolve-cons path_of cdn rest path w v p c =
      rw (p, resolve)
        (ap
          (λ x.
            or_next (or_next x (from_hosts cached download parser path cdn.hosts))
              (resolve cached download parser path_of rest))
          c)

  resolve-skip :
      (path_of : CdnsRecord → Result Bytes) (before rest : List CdnsRecord) {w u : W}
      → ServersFail path_of before w u
      → resolve cached download parser path_of (before ++ rest) w
        ≡ resolve cached download parser path_of rest u
  unfolding or_next from_hosts
  resolve-skip path_of _ rest no_servers = refl
  resolve-skip path_of _ rest (server_fails {cdns = cdns} {w = w} {v = v} cdn path p c h s) =
      let failed = from_hosts-skip path cdn.hosts [] h in
      resolve-cons path_of cdn (cdns ++ rest) path w v p c
      ∙ ap (λ x. or_next x (resolve cached download parser path_of (cdns ++ rest)))
          (ap (λ hs. from_hosts cached download parser path hs v) (sym (append-nil cdn.hosts))
            ∙ failed)
      ∙ resolve-skip path_of cdns rest s

  -- Behind servers that fail, and where the cache has nothing for the path on the next server and the
  -- first of its hosts fail, the next host decides: where its download is parsed `Resolve` gives what
  -- the parser gives, and where the download or the parser throws `Resolve` does, whatever hosts and
  -- servers follow.
  pub resolve_downloaded :
      (path_of : CdnsRecord → Result Bytes) (before after : List CdnsRecord) (cdn : CdnsRecord)
      (path : Bytes) (hosts more : List Bytes) (host : Bytes) (w v u t s : W)
      (r : Result (Option A))
      → ServersFail path_of before w v
      → path_of cdn ≡ ok path
      → cached path v ≡ (ok none, u)
      → cdn.hosts ≡ hosts ++ (host ∷ more)
      → HostsFail path hosts u t
      → Ends path host t r s
      → resolve cached download parser path_of (before ++ (cdn ∷ after)) w ≡ (r, s)
  unfolding from_hosts
  resolve_downloaded path_of before after cdn path hosts more host w v u t s r h p miss split hs e =
      let next = resolve cached download parser path_of after in
      let found : from_hosts cached download parser path cdn.hosts u ≡ (r, s) =
        ap (λ x. from_hosts cached download parser path x u) split
        ∙ from_hosts-skip path hosts (host ∷ more) hs
        ∙ (ends_lem path host (from_hosts cached download parser path more) e).0 in
      resolve-skip path_of before (cdn ∷ after) h
      ∙ resolve-cons path_of cdn after path v u p miss
      ∙ ap (λ x. or_next x next) found
      ∙ (ends_lem path host next e).1
