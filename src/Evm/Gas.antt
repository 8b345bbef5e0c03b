-- ===== src/Evm/Gas.antt =====
-- `opGas` of pkg/c2evm/stepper.go: the static price of each opcode.
use crypto.Base.{ℕ, ◌+◌, ◌*◌, ◌/◌, Bool, ◌&&◌, leb, ◌==◌, if◌then◌else◌, max_word}

abbrev pub gas_invalid : ℕ
gas_invalid = max_word

abbrev pub between : ℕ → ℕ → ℕ → Bool
between lo hi op = leb lo op && leb op hi

-- The table below 0x20, from 0x20 to 0x5f, and above.
abbrev low_gas : ℕ → ℕ
low_gas op =
    if op == 0x00
    then 0
    else if op == 0x01
    then 3
    else if op == 0x02
    then 5
    else if op == 0x03
    then 3
    else if between 0x04 0x07 op
    then 5
    else if between 0x08 0x09 op
    then 8
    else if op == 0x0a
    then 10
    else if op == 0x0b
    then 5
    else if between 0x10 0x1d op
    then 3
    else gas_invalid

abbrev middle_gas : ℕ → ℕ
middle_gas op =
    if op == 0x20
    then 30
    else if op == 0x50
    then 2
    else if between 0x51 0x53 op
    then 3
    else if op == 0x54
    then 800
    else if op == 0x55
    then 5000
    else if op == 0x56
    then 8
    else if op == 0x57
    then 10
    else if between 0x58 0x5a op
    then 2
    else if op == 0x5b
    then 1
    else if op == 0x5f
    then 2
    else gas_invalid

abbrev high_gas : ℕ → ℕ
high_gas op =
    if between 0x60 0x7f op
    then 3
    else if between 0x80 0x9f op
    then 3
    else if op == 0xfd
    then 0
    else gas_invalid

unfoldable pub op_gas : ℕ → ℕ
op_gas op = if leb op 0x1f then low_gas op else if leb op 0x5f then middle_gas op else high_gas op

-- `memGas`.
abbrev pub mem_gas : ℕ → ℕ
mem_gas words = 3 * words + words * words / 512
