-- ===== src/G2gin/LogLine.antt =====
-- g2gin/g2gin.go `UseLogger`: the line that a request leaves in the log.
use gof.Base.{
  ℕ, ◌-◌, ◌*◌, ◌%◌, Bool, not, List, [], ◌∷◌, ◌++◌, ltb, if◌then◌else◌, length, Text, codes,
}
use gof.Base.Decimal.{decimal}
use gof.Base.Dict.{Dict}

-- `gin.LogFormatterParams`, with the texts that its time and its values print as; a latency is in nanoseconds
pub record LogParams : Type 0 where
  pub time_stamp : Text
  pub method_key : Text
  pub status_code : ℕ
  pub latency : ℕ
  pub client_ip : Text
  pub method : Text
  pub path : Text
  pub error_message : Text
  pub header : Dict (List Text)
  pub request_body : Text

-- `%3d`
unfoldable pub width3 : ℕ → Text
unfolding decimal
width3 n =
    let d = decimal n in
    if ltb (length d) 2 then 32 ∷ 32 ∷ d else if ltb (length d) 3 then 32 ∷ d else d

abbrev pub nanos_in_second : ℕ
nanos_in_second = 1000000000

-- a latency above a minute loses its part below a second
unfoldable pub shown_latency : ℕ → ℕ
shown_latency l = if ltb (60 * nanos_in_second) l then l - l % nanos_in_second else l

-- `strings.Join(vs, ",")`
unfoldable pub join_commas : List Text → Text
join_commas [] = []
join_commas (s ∷ []) = s
join_commas (s ∷ t ∷ ts) = s ++ (b',' ∷ join_commas (t ∷ ts))

-- the map `mp` of the headers
unfoldable pub joined_headers : Dict (List Text) → Dict Text
unfolding join_commas
joined_headers [] = []
joined_headers ((k, vs) ∷ m) = (k, join_commas vs) ∷ joined_headers m

abbrev pub bar : Text
bar = codes " | "

-- the first line, and the error's
unfoldable pub first_lines : (ℕ → Text) → LogParams → Text
unfolding width3 shown_latency
first_lines duration p =
    codes "[GIN]| "
    ++ (p.time_stamp
        ++ (bar
            ++ (p.method_key
                ++ (bar
                    ++ (width3 p.status_code
                        ++ (bar
                            ++ (duration (shown_latency p.latency)
                                ++ (bar
                                    ++ (p.client_ip
                                        ++ (bar
                                            ++ (p.method
                                                ++ (bar
                                                    ++ (p.path
                                                        ++ (codes " |"
                                                            ++ (10 ∷ elim p.error_message [
                                                              | [] ↦ []
                                                              | c ∷ s ↦ c ∷ s ++ 10 ∷ []
                                                            ])))))))))))))))

-- `defaultLogFormatter`; `dump` is `JSONDump` of a map
unfoldable pub log_line : (ℕ → Text) → (Dict Text → Text) → Bool → LogParams → Text
unfolding first_lines joined_headers
log_line duration dump debug p =
    if not debug
    then first_lines duration p
    else first_lines duration p
      ++ (codes "[Header] "
          ++ (dump (joined_headers p.header)
              ++ (10 ∷ codes "[Body] " ++ (p.request_body ++ 10 ∷ 10 ∷ []))))
