-- ===== src/Url/Sample.antt =====
-- A small stand-in for the `url` crate, for the examples only: `http` and `https` URLs of the form
-- scheme://host/path, with default ports and two loopback hosts.
use greentic_designer_extens.Base.{
  ◌==◌, Option, none, some, [], ◌∷◌, ◌++◌, Text, codes, text_eq, strip_prefix, if◌then◌else◌,
}
use greentic_designer_extens.Url.Crate.{Host, domain, ipv4, UrlCrate}

pub record SampleUrl : Type 0 where
  pub scheme : Text
  pub host : Text
  pub path : Text

abbrev host_part : Text → Text
host_part [] = []
host_part (c ∷ s) = let rest = host_part s in if c == b'/' then [] else c ∷ rest

abbrev path_part : Text → Text
path_part [] = codes "/"
path_part (c ∷ s) = let rest = path_part s in if c == b'/' then c ∷ s else rest

abbrev sample_parse : Text → Option SampleUrl
sample_parse s = elim (strip_prefix (codes "https://") s) [
  | some rest ↦
      some (record { scheme = codes "https"; host = host_part rest; path = path_part rest })
  | none ↦ elim (strip_prefix (codes "http://") s) [
    | some rest ↦
        some (record { scheme = codes "http"; host = host_part rest; path = path_part rest })
    | none ↦ none
  ]
]

abbrev sample_host : Text → Host
sample_host h = if text_eq h (codes "127.0.0.1") then ipv4 2130706433 else domain h

abbrev pub sample : UrlCrate
sample = record {
  Url = SampleUrl;
  parse = sample_parse;
  as_str = λ u. u.scheme ++ (codes "://" ++ (u.host ++ u.path));
  scheme = λ u. u.scheme;
  host_str = λ u. some u.host;
  host = λ u. some (sample_host u.host);
  port_or_known_default = λ u. if text_eq u.scheme (codes "https") then some 443 else some 80;
  path = λ u. u.path;
  join = λ u location. sample_parse location;
  without_query = λ u. u;
  without_fragment = λ u. u;
  without_password = λ u. u;
  without_username = λ u. u;
}
