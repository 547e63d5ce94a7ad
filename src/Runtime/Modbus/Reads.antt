-- ===== src/Runtime/Modbus/Reads.antt =====
-- The requests and targets of src/runtime/modbus/model.rs.
use verdant.Base.{false, List, ◌⊎◌, ℕ, ◌+◌, ◌≤◌, ◌≡◌, ◌↔◌, true, arith, ok, is_ok}
use verdant.Runtime.Modbus.{
  Function, coils, discrete_inputs, holding_registers, input_registers, parse, code, Read, loopback,
  is_localhost, is_reserved_port, limit, new_read, bytes,
}

-- The function codes that are parsed are 1 to 4, and each is the code of the function it gives.
pub parse-code : (n : ℕ) (f : Function) → (parse n ≡ ok f) ↔ (n ≡ code f)
unfolding parse code
parse-code n coils = ((λ h. ground arith), (λ h. ground arith))
parse-code n discrete_inputs = ((λ h. ground arith), (λ h. ground arith))
parse-code n holding_registers = ((λ h. ground arith), (λ h. ground arith))
parse-code n input_registers = ((λ h. ground arith), (λ h. ground arith))

-- A read is accepted exactly when it asks for 1 to 2000 bits, or 1 to 125 registers, that end at or below
-- address 65535.
pub new_read_iff :
    (f : Function) (start count : ℕ)
    → (is_ok (new_read f start count) ≡ true)
      ↔ ((1 ≤ count) × (count ≤ limit f) × (start + count ≤ 65536))
unfolding new_read limit
new_read_iff f start count =
    ((λ h. (ground arith, ground arith, ground arith)), (λ h. ground (arith, h.0, h.1)))

-- The answer to an accepted read takes 1 to 250 bytes.
pub bytes-bounded :
    (f : Function) (start count : ℕ) (r : Read)
    → new_read f start count ≡ ok r
    → (1 ≤ bytes r) × (bytes r ≤ 250)
unfolding new_read bytes limit
bytes-bounded f start count r h = (ground arith, ground arith)

-- A target is accepted exactly for a unit of 1 to 247 or 255 at 127.0.0.1, on an unprivileged port that
-- is none of the four reserved ones.
pub loopback_iff :
    (ip : List ℕ) (port unit : ℕ)
    → (is_ok (loopback ip port unit) ≡ true) ↔ (
        (is_localhost ip ≡ true)
        × (1024 ≤ port)
        × (is_reserved_port port ≡ false)
        × (1 ≤ unit)
        × ((unit ≤ 247) ⊎ (unit ≡ 255)))
unfolding loopback
loopback_iff ip port unit = (
  (λ h. (ground arith, ground arith, ground arith, ground arith, ground arith)),
  (λ (a, b, c, d, e). ground arith),
)
