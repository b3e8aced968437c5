-- ===== src/Vterm/Params.antt =====
-- internal/vterm/parser.go: the accumulation of CSI parameters.
use termulaa.Prelude.{
  ℕ, ◌+◌, ◌-◌, ◌*◌, ◌^◌, Bool, true, false, not, ◌||◌, Option, none, some, ◌==◌, ltb, leb, get_or,
  set, map_range, if◌then◌else◌,
}
use termulaa.Vterm.State.{Parser, ParserState, max_params}

abbrev pub with_state : Parser → ParserState → Parser
with_state p s = record p { state = s }

unfoldable pub reset_csi : Parser → Parser
reset_csi p = record p {
  params = map_range (λ _. 0) 0 (p.n_params + 1) p.params;
  has_value = map_range (λ _. false) 0 (p.n_params + 1) p.has_value;
  is_sub = map_range (λ _. false) 0 (p.n_params + 1) p.is_sub;
  n_params = 0;
  intermediate = 0;
  private = 0;
  overflow = false;
}

-- Parameter `i`, or `none` when it is absent: the `-1` of `rawParam(i, -1)`.
unfoldable pub raw_param? : Parser → ℕ → Option ℕ
raw_param? p i =
    if leb p.n_params i || not (get_or p.has_value i false)
    then none
    else some (get_or p.params i 0)

unfoldable pub raw_param : Parser → ℕ → ℕ → ℕ
raw_param p i def =
    if leb p.n_params i || not (get_or p.has_value i false) then def else get_or p.params i 0

unfoldable pub param : Parser → ℕ → ℕ → ℕ
param p i def =
    if leb p.n_params i || not (get_or p.has_value i false) || get_or p.params i 0 == 0
    then def
    else get_or p.params i 0

-- if p.nParams == 0 { p.nParams = 1 }
abbrev pub first_param : Parser → ℕ
first_param p = if p.n_params == 0 then 1 else p.n_params

abbrev pub max_value : ℕ
max_value = 2 ^ 24

unfoldable pub push_digit : ℕ → Parser → Parser
push_digit b p =
    let n = first_param p in
    let i = n - 1 in
    let v = get_or p.params i 0 * 10 + (b - b'0') in
    if p.overflow then p else record p {
      n_params = n;
      params = set p.params i (if ltb max_value v then max_value else v);
      has_value = set p.has_value i true;
    }

unfoldable pub next_param : Bool → Parser → Parser
next_param sub p =
    let n = first_param p in
    if p.overflow
    then p
    else if leb max_params n
    then record p { n_params = n; overflow = true }
    else record p {
      n_params = n + 1;
      params = set p.params n 0;
      has_value = set p.has_value n false;
      is_sub = set p.is_sub n sub;
    }
