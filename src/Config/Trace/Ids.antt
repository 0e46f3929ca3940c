-- ===== src/Config/Trace/Ids.antt =====
-- The trace source ids that `configure_trace` gives.
use ultrasight.Common.{
  ◌≡◌, refl, ℕ, zero, suc, ◌+◌, ◌≤◌, ◌<◌, Bool, true, false, Option, some, List, [], ◌∷◌, subst,
  sym, ℤ, arith,
}
use ultrasight.Machine.{
  Env, Machine, Board, MapInfo, Device, Flow, Proc, Call, set_trace_source_id, next, done, fault,
  bind, after, ask, for_range, fn, returned, ◌>>=◌, ◌>>◌,
}
use ultrasight.Machine.Keeps.{Ignores, Keeps, keeping}
use ultrasight.Config.Etm.{init_etm, configure_etmv4_addr_range_cid}
use ultrasight.Config.Sinks.{check_errors}
use ultrasight.Config.Trace.{
  configure_trace, attach_source, configure_source, etm_source_id, stm_source_id,
}

-- The ids that a log gives, the newest first.
abbrev pub is_id : Call → Bool
is_id (set_trace_source_id d id) = true
is_id _ = false

abbrev pub id_in : Call → List ℕ → List ℕ
id_in (set_trace_source_id d id) is = id ∷ is
id_in _ is = is

abbrev pub ids : List Call → List ℕ
ids [] = []
ids (c ∷ l) = id_in c (ids l)

abbrev pub given : Machine → List ℕ
given s = ids s.log

-- Each id is greater than those given before it, and the last is below `hi`.
abbrev pub Falling : (hi : ℕ) → List ℕ → Type 0
Falling hi [] = Unit {0}
Falling hi (i ∷ is) = (i < hi) × Falling i is

Falling-below : {lo hi : ℕ} (is : List ℕ) → lo ≤ hi → Falling lo is → Falling hi is
Falling-below [] le h = tt
Falling-below (i ∷ is) le (lt, h) = (omega arith, h)

id_in-silent : (c : Call) (is : List ℕ) → is_id c ≡ false → id_in c is ≡ is
id_in-silent (set_trace_source_id d id) is h = cc
id_in-silent _ is h = refl

silent : (c : Call) → is_id c ≡ false → Ignores given c
silent c h = record { ignores = λ s. id_in-silent c (ids s.log) h }

-- From ids below `lo` to ids below `hi`.
record Assigns (lo hi : ℕ) {A : Type 0} (m : Proc A) : Type 0 where
  assigns : (s : Machine) → Falling lo (given s) → Falling hi (given (after (m s)))

bind-Falling :
    {A B : Type 0} {mid hi : ℕ} (r : Flow A) (f : A → Proc B)
    → mid ≤ hi
    → Falling mid (given (after r))
    → ((a : A) → Assigns mid hi (f a))
    → Falling hi (given (after (bind r f)))
bind-Falling (next a t) f le h k = (k a).assigns t h
bind-Falling (done r t) f le h k = Falling-below (given t) le h
bind-Falling (fault t) f le h k = Falling-below (given t) le h

Assigns-Keeps : {n : ℕ} {A : Type 0} {m : Proc A} → Keeps given m → Assigns n n m
Assigns-Keeps {n} h = record { assigns = λ s w. subst (Falling n) (sym (h.keeps s)) w }

-- A first part that gives no id.
Assigns->>= :
    {lo hi : ℕ} {A B : Type 0} {m : Proc A} {f : A → Proc B}
    → lo ≤ hi
    → Keeps given m
    → ((a : A) → Assigns lo hi (f a))
    → Assigns lo hi (m >>= f)
Assigns->>= {m} {f} le h k = record {
  assigns = λ s w. bind-Falling (m s) f le ((Assigns-Keeps h).assigns s w) k;
}

Assigns->> :
    {lo hi : ℕ} {A B : Type 0} {m : Proc A} {k : Proc B}
    → lo ≤ hi
    → Keeps given m
    → Assigns lo hi k
    → Assigns lo hi (m >> k)
Assigns->> {m} {k} le h j = record {
  assigns = λ s w. bind-Falling (m s) (λ _. k) le ((Assigns-Keeps h).assigns s w) (λ _. j);
}

-- Two parts that give ids, and an id given.
Assigns-then :
    (mid : ℕ) {lo hi : ℕ} {A B : Type 0} {m : Proc A} {k : Proc B}
    → mid ≤ hi
    → Assigns lo mid m
    → Assigns mid hi k
    → Assigns lo hi (m >> k)
Assigns-then mid {m} {k} le h j = record {
  assigns = λ s w. bind-Falling (m s) (λ _. k) le (h.assigns s w) (λ _. j);
}

Assigns-id :
    (env : Env) (d : Device) (id : ℕ) {A : Type 0} {f : ℤ → Proc A}
    → ((r : ℤ) → Keeps given (f r))
    → Assigns id (suc id) (ask env (set_trace_source_id d id) >>= f)
Assigns-id env d id {f} h = record {
  assigns = λ s w.
      subst (Falling (suc id))
        (sym ((h _).keeps (record s { log = set_trace_source_id d id ∷ s.log }))) (omega arith, w);
}

of_returned :
    (hi : ℕ) (r : Flow (Unit {0}))
    → Falling hi (given (after r))
    → Falling hi (given (after (returned r)))
of_returned hi (next a t) w = w
of_returned hi (done r t) w = w
of_returned hi (fault t) w = w

Assigns-fn : {lo hi : ℕ} {m : Proc (Unit {0})} → Assigns lo hi m → Assigns lo hi (fn m)
Assigns-fn {hi} {m} h = record { assigns = λ s w. of_returned hi (m s) (h.assigns s w) }

-- A wider range of ids.
Assigns-widen :
    {lo hi lo' hi' : ℕ} {A : Type 0} {m : Proc A}
    → lo' ≤ lo
    → hi ≤ hi'
    → Assigns lo hi m
    → Assigns lo' hi' m
Assigns-widen le ge h = record {
  assigns = λ s w. Falling-below _ ge (h.assigns s (Falling-below (given s) le w));
}

le_step : (n : ℕ) → n ≤ suc n
le_step n = omega arith

init_etm-given : (env : Env) (d : Device) → Keeps given (init_etm env d)
unfolding init_etm
init_etm-given env d = search (keeping, silent) depth 40

source-Assigns :
    (env : Env) (i : ℕ) → Assigns (etm_source_id i) (suc (etm_source_id i)) (attach_source env i)
unfolding attach_source
source-Assigns env i =
    search (Assigns->>=, Assigns->>, Assigns-id, le_step, keeping, silent, init_etm-given) depth 30

for_range-Assigns :
    (n i : ℕ) {body : ℕ → Proc (Unit {0})}
    → ((j : ℕ) → Assigns (etm_source_id j) (suc (etm_source_id j)) (body j))
    → Assigns (etm_source_id i) (etm_source_id i + n) (for_range n i body)
unfolding for_range
for_range-Assigns zero i h = record { assigns = λ s w. Falling-below (given s) (omega arith) w }
for_range-Assigns (suc n) i {body} h =
    let rest : Assigns (suc (etm_source_id i)) (etm_source_id i + suc n)
        (for_range n (i + 1) body) =
      Assigns-widen (omega arith) (omega arith) (for_range-Assigns n (i + 1) h) in
    record {
      assigns = λ s w.
          bind-Falling (body i s) (λ _. for_range n (i + 1) body) (omega arith) ((h i).assigns s w)
            (λ _. rest);
    }

configure_etm-given :
    (env : Env) (d : Device) (range : Option MapInfo) (cid : ℕ)
    → Keeps given (configure_etmv4_addr_range_cid env d range cid)
unfolding configure_etmv4_addr_range_cid
configure_etm-given env d range cid = search (keeping, silent) depth 40

configure_source-given :
    (env : Env) (range : Option MapInfo) (cid i : ℕ)
    → Keeps given (configure_source env range cid i)
unfolding configure_source
configure_source-given env range cid i = search (keeping, silent, configure_etm-given) depth 40

-- The ETMs' ids, and what follows them.
sources_then :
    (env : Env) (n : ℕ) {A : Type 0} {k : Proc A}
    → n ≤ 16
    → Assigns stm_source_id (suc stm_source_id) k
    → Assigns 0x10 (suc stm_source_id) (for_range n 0 (attach_source env) >> k)
sources_then env n h j =
    Assigns-then stm_source_id (le_step stm_source_id)
      (Assigns-widen (omega arith) (omega arith) (for_range-Assigns n 0 (source-Assigns env))) j

le_all : 0x10 ≤ suc stm_source_id
le_all = omega arith

configure-Assigns :
    (env : Env) (board : Board) (range : Option MapInfo) (cid : ℕ)
    → board.n_cpu ≤ 16
    → Assigns 0x10 (suc stm_source_id) (configure_trace env (some board) range cid)
unfolding configure_trace check_errors
configure-Assigns env board range cid h =
    search
      (
        Assigns-fn, sources_then, Assigns-id, Assigns->>, Assigns->>=, le_all, keeping, silent,
        configure_source-given,
      )
      depth 40

-- On a board of at most sixteen CPUs, whatever is answered, `configure_trace` gives no trace source id
-- twice: each is greater than the ones given before it, and the last is at most that of the STM.
pub configure_trace-Falling :
    (env : Env) (board : Board) (range : Option MapInfo) (cid : ℕ) (s : Machine)
    → board.n_cpu ≤ 16
    → given s ≡ []
    → Falling (suc stm_source_id) (given (after (configure_trace env (some board) range cid s)))
configure_trace-Falling env board range cid s h e =
    (configure-Assigns env board range cid h).assigns s (rw e tt)
