-- ===== src/Vm/Contracts/Prices.antt =====
-- The prices of the precompiled contracts, and the limits of calls and creations
-- (params/protocol_params.go).
use cardinal_evm.Prelude.{ℕ, List, [], ◌∷◌}

abbrev pub create_data_gas : ℕ
create_data_gas = 200

abbrev pub call_create_depth : ℕ
call_create_depth = 1024

abbrev pub max_code_size : ℕ
max_code_size = 24576

abbrev pub max_code_size_pip30 : ℕ
max_code_size_pip30 = 32768

abbrev pub ecrecover_gas : ℕ
ecrecover_gas = 3000

abbrev pub sha256_base_gas : ℕ
sha256_base_gas = 60

abbrev pub sha256_per_word_gas : ℕ
sha256_per_word_gas = 12

abbrev pub ripemd160_base_gas : ℕ
ripemd160_base_gas = 600

abbrev pub ripemd160_per_word_gas : ℕ
ripemd160_per_word_gas = 120

abbrev pub identity_base_gas : ℕ
identity_base_gas = 15

abbrev pub identity_per_word_gas : ℕ
identity_per_word_gas = 3

abbrev pub bn256_add_gas_byzantium : ℕ
bn256_add_gas_byzantium = 500

abbrev pub bn256_add_gas_istanbul : ℕ
bn256_add_gas_istanbul = 150

abbrev pub bn256_scalar_mul_gas_byzantium : ℕ
bn256_scalar_mul_gas_byzantium = 40000

abbrev pub bn256_scalar_mul_gas_istanbul : ℕ
bn256_scalar_mul_gas_istanbul = 6000

abbrev pub bn256_pairing_base_gas_byzantium : ℕ
bn256_pairing_base_gas_byzantium = 100000

abbrev pub bn256_pairing_base_gas_istanbul : ℕ
bn256_pairing_base_gas_istanbul = 45000

abbrev pub bn256_pairing_per_point_gas_byzantium : ℕ
bn256_pairing_per_point_gas_byzantium = 80000

abbrev pub bn256_pairing_per_point_gas_istanbul : ℕ
bn256_pairing_per_point_gas_istanbul = 34000

abbrev pub bls12381_g1_add_gas : ℕ
bls12381_g1_add_gas = 375

abbrev pub bls12381_g1_mul_gas : ℕ
bls12381_g1_mul_gas = 12000

abbrev pub bls12381_g2_add_gas : ℕ
bls12381_g2_add_gas = 600

abbrev pub bls12381_g2_mul_gas : ℕ
bls12381_g2_mul_gas = 22500

abbrev pub bls12381_pairing_base_gas : ℕ
bls12381_pairing_base_gas = 37700

abbrev pub bls12381_pairing_per_pair_gas : ℕ
bls12381_pairing_per_pair_gas = 32600

abbrev pub bls12381_map_g1_gas : ℕ
bls12381_map_g1_gas = 5500

abbrev pub bls12381_map_g2_gas : ℕ
bls12381_map_g2_gas = 23800

abbrev pub blob_tx_point_evaluation_precompile_gas : ℕ
blob_tx_point_evaluation_precompile_gas = 50000

unfoldable pub bls12381_g1_multi_exp_discount_table : List ℕ
bls12381_g1_multi_exp_discount_table =
    1000 ∷ 949 ∷ 848 ∷ 797 ∷ 764 ∷ 750 ∷ 738 ∷ 728 ∷ 719 ∷ 712 ∷ 705 ∷ 698 ∷ 692 ∷ 687 ∷ 682 ∷ 677
    ∷ 673 ∷ 669 ∷ 665 ∷ 661 ∷ 658 ∷ 654 ∷ 651 ∷ 648 ∷ 645 ∷ 642 ∷ 640 ∷ 637 ∷ 635 ∷ 632 ∷ 630 ∷ 627
    ∷ 625 ∷ 623 ∷ 621 ∷ 619 ∷ 617 ∷ 615 ∷ 613 ∷ 611 ∷ 609 ∷ 608 ∷ 606 ∷ 604 ∷ 603 ∷ 601 ∷ 599 ∷ 598
    ∷ 596 ∷ 595 ∷ 593 ∷ 592 ∷ 591 ∷ 589 ∷ 588 ∷ 586 ∷ 585 ∷ 584 ∷ 582 ∷ 581 ∷ 580 ∷ 579 ∷ 577 ∷ 576
    ∷ 575 ∷ 574 ∷ 573 ∷ 572 ∷ 570 ∷ 569 ∷ 568 ∷ 567 ∷ 566 ∷ 565 ∷ 564 ∷ 563 ∷ 562 ∷ 561 ∷ 560 ∷ 559
    ∷ 558 ∷ 557 ∷ 556 ∷ 555 ∷ 554 ∷ 553 ∷ 552 ∷ 551 ∷ 550 ∷ 549 ∷ 548 ∷ 547 ∷ 547 ∷ 546 ∷ 545 ∷ 544
    ∷ 543 ∷ 542 ∷ 541 ∷ 540 ∷ 540 ∷ 539 ∷ 538 ∷ 537 ∷ 536 ∷ 536 ∷ 535 ∷ 534 ∷ 533 ∷ 532 ∷ 532 ∷ 531
    ∷ 530 ∷ 529 ∷ 528 ∷ 528 ∷ 527 ∷ 526 ∷ 525 ∷ 525 ∷ 524 ∷ 523 ∷ 522 ∷ 522 ∷ 521 ∷ 520 ∷ 520 ∷ 519
    ∷ []

unfoldable pub bls12381_g2_multi_exp_discount_table : List ℕ
bls12381_g2_multi_exp_discount_table =
    1000 ∷ 1000 ∷ 923 ∷ 884 ∷ 855 ∷ 832 ∷ 812 ∷ 796 ∷ 782 ∷ 770 ∷ 759 ∷ 749 ∷ 740 ∷ 732 ∷ 724 ∷ 717
    ∷ 711 ∷ 704 ∷ 699 ∷ 693 ∷ 688 ∷ 683 ∷ 679 ∷ 674 ∷ 670 ∷ 666 ∷ 663 ∷ 659 ∷ 655 ∷ 652 ∷ 649 ∷ 646
    ∷ 643 ∷ 640 ∷ 637 ∷ 634 ∷ 632 ∷ 629 ∷ 627 ∷ 624 ∷ 622 ∷ 620 ∷ 618 ∷ 615 ∷ 613 ∷ 611 ∷ 609 ∷ 607
    ∷ 606 ∷ 604 ∷ 602 ∷ 600 ∷ 598 ∷ 597 ∷ 595 ∷ 593 ∷ 592 ∷ 590 ∷ 589 ∷ 587 ∷ 586 ∷ 584 ∷ 583 ∷ 582
    ∷ 580 ∷ 579 ∷ 578 ∷ 576 ∷ 575 ∷ 574 ∷ 573 ∷ 571 ∷ 570 ∷ 569 ∷ 568 ∷ 567 ∷ 566 ∷ 565 ∷ 563 ∷ 562
    ∷ 561 ∷ 560 ∷ 559 ∷ 558 ∷ 557 ∷ 556 ∷ 555 ∷ 554 ∷ 553 ∷ 552 ∷ 552 ∷ 551 ∷ 550 ∷ 549 ∷ 548 ∷ 547
    ∷ 546 ∷ 545 ∷ 545 ∷ 544 ∷ 543 ∷ 542 ∷ 541 ∷ 541 ∷ 540 ∷ 539 ∷ 538 ∷ 537 ∷ 537 ∷ 536 ∷ 535 ∷ 535
    ∷ 534 ∷ 533 ∷ 532 ∷ 532 ∷ 531 ∷ 530 ∷ 530 ∷ 529 ∷ 528 ∷ 528 ∷ 527 ∷ 526 ∷ 526 ∷ 525 ∷ 524 ∷ 524
    ∷ []
