-- ===== src/Vm/Opcodes.antt =====
-- vm/opcodes.go: the bytes of the operations.
use cardinal_evm.Prelude.{ℕ}

abbrev pub stop_op : ℕ
stop_op = 0x0

abbrev pub add : ℕ
add = 0x1

abbrev pub mul : ℕ
mul = 0x2

abbrev pub sub : ℕ
sub = 0x3

abbrev pub div : ℕ
div = 0x4

abbrev pub sdiv : ℕ
sdiv = 0x5

abbrev pub mod_op : ℕ
mod_op = 0x6

abbrev pub smod : ℕ
smod = 0x7

abbrev pub addmod : ℕ
addmod = 0x8

abbrev pub mulmod : ℕ
mulmod = 0x9

abbrev pub exp : ℕ
exp = 0xa

abbrev pub signextend : ℕ
signextend = 0xb

abbrev pub lt : ℕ
lt = 0x10

abbrev pub gt : ℕ
gt = 0x11

abbrev pub slt : ℕ
slt = 0x12

abbrev pub sgt : ℕ
sgt = 0x13

abbrev pub eq : ℕ
eq = 0x14

abbrev pub iszero : ℕ
iszero = 0x15

abbrev pub and_op : ℕ
and_op = 0x16

abbrev pub or_op : ℕ
or_op = 0x17

abbrev pub xor : ℕ
xor = 0x18

abbrev pub not_op : ℕ
not_op = 0x19

abbrev pub byte_op : ℕ
byte_op = 0x1a

abbrev pub shl : ℕ
shl = 0x1b

abbrev pub shr : ℕ
shr = 0x1c

abbrev pub sar : ℕ
sar = 0x1d

abbrev pub clz : ℕ
clz = 0x1e

abbrev pub keccak256 : ℕ
keccak256 = 0x20

abbrev pub address : ℕ
address = 0x30

abbrev pub balance : ℕ
balance = 0x31

abbrev pub origin : ℕ
origin = 0x32

abbrev pub caller : ℕ
caller = 0x33

abbrev pub callvalue : ℕ
callvalue = 0x34

abbrev pub calldataload : ℕ
calldataload = 0x35

abbrev pub calldatasize : ℕ
calldatasize = 0x36

abbrev pub calldatacopy : ℕ
calldatacopy = 0x37

abbrev pub codesize : ℕ
codesize = 0x38

abbrev pub codecopy : ℕ
codecopy = 0x39

abbrev pub gasprice : ℕ
gasprice = 0x3a

abbrev pub extcodesize : ℕ
extcodesize = 0x3b

abbrev pub extcodecopy : ℕ
extcodecopy = 0x3c

abbrev pub returndatasize : ℕ
returndatasize = 0x3d

abbrev pub returndatacopy : ℕ
returndatacopy = 0x3e

abbrev pub extcodehash : ℕ
extcodehash = 0x3f

abbrev pub blockhash : ℕ
blockhash = 0x40

abbrev pub coinbase : ℕ
coinbase = 0x41

abbrev pub timestamp : ℕ
timestamp = 0x42

abbrev pub number : ℕ
number = 0x43

abbrev pub difficulty : ℕ
difficulty = 0x44

abbrev pub random : ℕ
random = 0x44

abbrev pub gaslimit : ℕ
gaslimit = 0x45

abbrev pub chainid : ℕ
chainid = 0x46

abbrev pub selfbalance : ℕ
selfbalance = 0x47

abbrev pub basefee : ℕ
basefee = 0x48

abbrev pub blobhash : ℕ
blobhash = 0x49

abbrev pub blobbasefee : ℕ
blobbasefee = 0x4a

abbrev pub pop : ℕ
pop = 0x50

abbrev pub mload : ℕ
mload = 0x51

abbrev pub mstore : ℕ
mstore = 0x52

abbrev pub mstore8 : ℕ
mstore8 = 0x53

abbrev pub sload : ℕ
sload = 0x54

abbrev pub sstore : ℕ
sstore = 0x55

abbrev pub jump : ℕ
jump = 0x56

abbrev pub jumpi : ℕ
jumpi = 0x57

abbrev pub pc : ℕ
pc = 0x58

abbrev pub msize : ℕ
msize = 0x59

abbrev pub gas : ℕ
gas = 0x5a

abbrev pub jumpdest : ℕ
jumpdest = 0x5b

abbrev pub tload : ℕ
tload = 0x5c

abbrev pub tstore : ℕ
tstore = 0x5d

abbrev pub mcopy : ℕ
mcopy = 0x5e

abbrev pub push0 : ℕ
push0 = 0x5f

abbrev pub push1 : ℕ
push1 = 0x60

abbrev pub push2 : ℕ
push2 = 0x61

abbrev pub push3 : ℕ
push3 = 0x62

abbrev pub push4 : ℕ
push4 = 0x63

abbrev pub push5 : ℕ
push5 = 0x64

abbrev pub push6 : ℕ
push6 = 0x65

abbrev pub push7 : ℕ
push7 = 0x66

abbrev pub push8 : ℕ
push8 = 0x67

abbrev pub push9 : ℕ
push9 = 0x68

abbrev pub push10 : ℕ
push10 = 0x69

abbrev pub push11 : ℕ
push11 = 0x6a

abbrev pub push12 : ℕ
push12 = 0x6b

abbrev pub push13 : ℕ
push13 = 0x6c

abbrev pub push14 : ℕ
push14 = 0x6d

abbrev pub push15 : ℕ
push15 = 0x6e

abbrev pub push16 : ℕ
push16 = 0x6f

abbrev pub push17 : ℕ
push17 = 0x70

abbrev pub push18 : ℕ
push18 = 0x71

abbrev pub push19 : ℕ
push19 = 0x72

abbrev pub push20 : ℕ
push20 = 0x73

abbrev pub push21 : ℕ
push21 = 0x74

abbrev pub push22 : ℕ
push22 = 0x75

abbrev pub push23 : ℕ
push23 = 0x76

abbrev pub push24 : ℕ
push24 = 0x77

abbrev pub push25 : ℕ
push25 = 0x78

abbrev pub push26 : ℕ
push26 = 0x79

abbrev pub push27 : ℕ
push27 = 0x7a

abbrev pub push28 : ℕ
push28 = 0x7b

abbrev pub push29 : ℕ
push29 = 0x7c

abbrev pub push30 : ℕ
push30 = 0x7d

abbrev pub push31 : ℕ
push31 = 0x7e

abbrev pub push32 : ℕ
push32 = 0x7f

abbrev pub dup1 : ℕ
dup1 = 0x80

abbrev pub dup2 : ℕ
dup2 = 0x81

abbrev pub dup3 : ℕ
dup3 = 0x82

abbrev pub dup4 : ℕ
dup4 = 0x83

abbrev pub dup5 : ℕ
dup5 = 0x84

abbrev pub dup6 : ℕ
dup6 = 0x85

abbrev pub dup7 : ℕ
dup7 = 0x86

abbrev pub dup8 : ℕ
dup8 = 0x87

abbrev pub dup9 : ℕ
dup9 = 0x88

abbrev pub dup10 : ℕ
dup10 = 0x89

abbrev pub dup11 : ℕ
dup11 = 0x8a

abbrev pub dup12 : ℕ
dup12 = 0x8b

abbrev pub dup13 : ℕ
dup13 = 0x8c

abbrev pub dup14 : ℕ
dup14 = 0x8d

abbrev pub dup15 : ℕ
dup15 = 0x8e

abbrev pub dup16 : ℕ
dup16 = 0x8f

abbrev pub swap1 : ℕ
swap1 = 0x90

abbrev pub swap2 : ℕ
swap2 = 0x91

abbrev pub swap3 : ℕ
swap3 = 0x92

abbrev pub swap4 : ℕ
swap4 = 0x93

abbrev pub swap5 : ℕ
swap5 = 0x94

abbrev pub swap6 : ℕ
swap6 = 0x95

abbrev pub swap7 : ℕ
swap7 = 0x96

abbrev pub swap8 : ℕ
swap8 = 0x97

abbrev pub swap9 : ℕ
swap9 = 0x98

abbrev pub swap10 : ℕ
swap10 = 0x99

abbrev pub swap11 : ℕ
swap11 = 0x9a

abbrev pub swap12 : ℕ
swap12 = 0x9b

abbrev pub swap13 : ℕ
swap13 = 0x9c

abbrev pub swap14 : ℕ
swap14 = 0x9d

abbrev pub swap15 : ℕ
swap15 = 0x9e

abbrev pub swap16 : ℕ
swap16 = 0x9f

abbrev pub log0 : ℕ
log0 = 0xa0

abbrev pub log1 : ℕ
log1 = 0xa1

abbrev pub log2 : ℕ
log2 = 0xa2

abbrev pub log3 : ℕ
log3 = 0xa3

abbrev pub log4 : ℕ
log4 = 0xa4

abbrev pub create : ℕ
create = 0xf0

abbrev pub call : ℕ
call = 0xf1

abbrev pub callcode : ℕ
callcode = 0xf2

abbrev pub return_op : ℕ
return_op = 0xf3

abbrev pub delegatecall : ℕ
delegatecall = 0xf4

abbrev pub create2 : ℕ
create2 = 0xf5

abbrev pub staticcall : ℕ
staticcall = 0xfa

abbrev pub revert : ℕ
revert = 0xfd

abbrev pub selfdestruct : ℕ
selfdestruct = 0xff
