-- ===== src/User/Serve.antt =====
-- A program and a kernel that answers its calls, for the loop of `wait` in user/user_lib.c.
use testcode.Base.{
  ℕ, zero, suc, ◌%◌, ◌^◌, ◌<◌, ◌≡◌, ◌≢◌, refl, sym, ap, ◌∙◌, List, [], ◌∷◌, length, All, arith,
  false, ◌==◌,
}
use testcode.Machine.Word.{sext32}
use testcode.Process.{minus_two}
use testcode.Str.{Bytes}
use testcode.Syscall.Table.{SysCall, sysnum}
use testcode.User.{
  User, returned, asks, out_of_fuel, Request, Code, pure, then_run, do_user_call, yield, wait,
}

-- The register a0 and memory after a call.
pub record Answer : Type 0 where
  pub ret : ℕ
  pub memory : Bytes

-- How a run ends: the program returns, the answers are used up, or it is out of fuel.
pub data End {ℓ} (A : Type ℓ) : Type ℓ where
  returns : A → Bytes → End A
  waits : End A
  starves : End A

-- The calls of a program that gets these answers.
unfoldable pub serve {ℓ} : {A : Type ℓ} → List Answer → User A → List Request × End A
serve xs (returned a m) = ([], returns a m)
serve xs out_of_fuel = ([], starves)
serve [] (asks r m k) = (r ∷ [], waits)
serve (x ∷ xs) (asks r m k) = let (rs, e) = serve xs (k x.ret x.memory) in (r ∷ rs, e)

-- An answer -2 to `wait`, and the answer to the `yield` behind it.
pub record Round : Type 0 where
  pub waited : Answer
  pub yielded : Answer

-- The `int` that an answer is.
abbrev pub int_of : Answer → ℕ
int_of x = x.ret % 2 ^ 32

abbrev pub answers : List Round → List Answer → List Answer
answers [] xs = xs
answers (r ∷ rs) xs = r.waited ∷ (r.yielded ∷ answers rs xs)

abbrev pub wait_request : (pid : ℕ) → Request
wait_request pid = record { number = sysnum SysCall.wait; a1 = sext32 pid; a2 = 0; a3 = 0 }

abbrev pub yield_request : Request
yield_request = record { number = sysnum SysCall.yield; a1 = 0; a2 = 0; a3 = 0 }

-- `wait` and `yield` for each round, then `wait`, and `rs` behind it.
abbrev pub wait_requests : (pid : ℕ) → List Round → List Request → List Request
wait_requests pid [] rs = wait_request pid ∷ rs
wait_requests pid (x ∷ xs) rs = wait_request pid ∷ (yield_request ∷ wait_requests pid xs rs)

pub int_sext : (a : ℕ) → sext32 (a % 2 ^ 32) % 2 ^ 32 ≡ a % 2 ^ 32
int_sext a = omega arith

-- A program that waits first gets through the rounds, and goes on with the last answer.
pub wait-then_run {ℓ} :
    {A : Type ℓ} (n pid : ℕ) (rounds : List Round) (last : Answer) (xs : List Answer) (m : Bytes)
    (f : ℕ → Code A)
    → All (λ r. int_of r.waited ≡ minus_two) rounds
    → int_of last ≢ minus_two
    → length rounds < n
    → serve (answers rounds (last ∷ xs)) (then_run (wait n pid m) f)
      ≡ (let (rs, e) = serve xs (f (int_of last) last.memory) in (wait_requests pid rounds rs, e))
unfolding wait do_user_call then_run serve yield
wait-then_run zero pid rounds last xs m f waiting other enough = absurd (omega arith)
wait-then_run (suc n) pid [] last xs m f waiting other enough =
    let differs : (int_of last == minus_two) ≡ false = ground (arith, other) in
    rw (int_sext last.ret, differs) refl
wait-then_run (suc n) pid (r ∷ rounds) last xs m f waiting other enough =
    rw (int_sext r.waited.ret, waiting.0)
      (rw (wait-then_run n pid rounds last xs r.yielded.memory f waiting.1 other (omega arith))
        refl)

pub then_run-pure {ℓ} : {A : Type ℓ} (u : User A) → then_run u pure ≡ u
unfolding then_run
then_run-pure (returned a m) = refl
then_run-pure (asks r m k) = λ i. asks r m (λ ret m'. then_run-pure (k ret m') i)
then_run-pure out_of_fuel = refl

-- If the kernel answers -2 to the first calls of `wait`, fewer than the rounds of its loop, and
-- something else to the next one, then `wait` returns that answer, as an `int`: it asks the
-- kernel to wait and to yield for each -2, whatever `yield` answers, and to wait once more.
pub wait-Waited :
    (n pid : ℕ) (rounds : List Round) (last : Answer) (m : Bytes)
    → All (λ r. int_of r.waited ≡ minus_two) rounds
    → int_of last ≢ minus_two
    → length rounds < n
    → serve (answers rounds (last ∷ [])) (wait n pid m)
      ≡ (wait_requests pid rounds [], returns (int_of last) last.memory)
unfolding serve
wait-Waited n pid rounds last m waiting other enough =
    ap (serve (answers rounds (last ∷ []))) (sym (then_run-pure (wait n pid m)))
    ∙ wait-then_run n pid rounds last [] m pure waiting other enough
