-- ===== src/Provider/Labels.antt =====
-- crates/provider/src/labels.rs: the registry of well-known contracts. An address literal that
-- `addr` parses is the number that it spells.
pub mod Lookup
use argus_core.Base.{String, List, [], ◌∷◌, ◌++◌, Option, ◌≡◌, foldl, ℕ_discrete}
use argus_core.HashMap.{get, insert}
use argus_core.Types.{Address}

pub record ContractLabel : Type 0 where
  pub protocol : String
  pub name : String

abbrev entry : Address → String → String → Address × ContractLabel
entry address protocol name = (address, record { protocol = protocol; name = name })

-- The insertions, by the headings of the source.
abbrev Labels : Type 0
Labels = List (Address × ContractLabel)

abbrev uniswap_labels : Labels
uniswap_labels =
    entry 0x7a250d5630b4cf539739df2c5dacb4c659f2488d "Uniswap" "V2 Router"
    ∷ entry 0x5c69bee701ef814a2b6a3edd4b1652cb9cc5aa6f "Uniswap" "V2 Factory"
    ∷ entry 0xe592427a0aece92de3edee1f18e0157c05861564 "Uniswap" "V3 SwapRouter"
    ∷ entry 0x68b3465833fb72a70ecdf485e0e4c7bd8665fc45 "Uniswap" "V3 SwapRouter02"
    ∷ entry 0x1f98431c8ad98523631ae4a59f267346ea31f984 "Uniswap" "V3 Factory"
    ∷ entry 0x3fc91a3afd70395cd496c647d5a6cc9d4b2b7fad "Uniswap" "Universal Router"
    ∷ entry 0xb4e16d0168e52d35cacd2c6185b44281ec28c9dc "Uniswap" "V2 USDC/WETH"
    ∷ entry 0x0d4a11d5eeaac28ec3f61d100daf4d40471f1852 "Uniswap" "V2 WETH/USDT"
    ∷ entry 0x8ad599c3a0ff1de082011efddc58f1908eb6e6d8 "Uniswap" "V3 USDC/WETH 0.3%"
    ∷ entry 0x88e6a0c2ddd26feeb64f039a2c41296fcb3f5640 "Uniswap" "V3 USDC/WETH 0.05%"
    ∷ entry 0xcbcdf9626bc03e24f779434178a73a0b4bad62ed "Uniswap" "V3 WBTC/WETH"
    ∷ []

abbrev token_labels : Labels
token_labels =
    entry 0xc02aaa39b223fe8d0a0e5c4f27ead9083c756cc2 "WETH" "Wrapped Ether"
    ∷ entry 0xa0b86991c6218b36c1d19d4a2e9eb0ce3606eb48 "USDC" "USD Coin"
    ∷ entry 0xdac17f958d2ee523a2206206994597c13d831ec7 "USDT" "Tether USD"
    ∷ entry 0x6b175474e89094c44da98b954eedeac495271d0f "DAI" "Dai Stablecoin"
    ∷ entry 0x2260fac5e5542a773aa44fbcfedf7c193bc2c599 "WBTC" "Wrapped BTC"
    ∷ entry 0x514910771af9ca656af840dff83e8264ecf986ca "LINK" "Chainlink Token"
    ∷ entry 0x1f9840a85d5af5bf1d1762f925bdaddc4201f984 "UNI" "Uniswap Token"
    ∷ entry 0x95ad61b0a150d79219dcf64e1e6cc01f0b64c4ce "SHIB" "Shiba Inu"
    ∷ entry 0x7d1afa7b718fb893db30a3abc0cfc608aacfebb0 "MATIC" "Polygon Token"
    ∷ entry 0xae7ab96520de3a18e5e111b5eaab095312d7fe84 "stETH" "Lido Staked ETH"
    ∷ []

abbrev aave_labels : Labels
aave_labels =
    entry 0x87870bca3f3fd6335c3f4ce8392d69350b4fa4e2 "Aave" "V3 Pool"
    ∷ entry 0x7d2768de32b0b80b7a3454c06bdac94a69ddc7a9 "Aave" "V2 LendingPool"
    ∷ []

abbrev curve_labels : Labels
curve_labels =
    entry 0xbebc44782c7db0a1a60cb6fe97d0b483032ff1c7 "Curve" "3pool"
    ∷ entry 0xdc24316b9ae028f1497c275eb9192a3ea0f67022 "Curve" "stETH/ETH"
    ∷ []

abbrev one_inch_labels : Labels
one_inch_labels =
    entry 0x1111111254eeb25477b68fb85ed929f73a960582 "1inch" "V5 Router"
    ∷ entry 0x111111125421ca6dc452d289314280a0f8842a65 "1inch" "V6 Router"
    ∷ []

abbrev nft_labels : Labels
nft_labels =
    entry 0x00000000000000adc04c56bf30ac9d3c0aaf14dc "OpenSea" "Seaport 1.5"
    ∷ entry 0x00000000006c3852cbef3e08e8df289169ede581 "OpenSea" "Seaport 1.1"
    ∷ entry 0x29469395eaf6f95920e59f858042f0e28d98a20b "Blur" "BlurPool"
    ∷ entry 0x000000000000ad05ccc4f10045630fb830b95127 "Blur" "Marketplace"
    ∷ entry 0xb47e3cd837ddf8e4c57f05d70ab865de6e193bbb "CryptoPunks" "Marketplace"
    ∷ []

abbrev lido_labels : Labels
lido_labels =
    entry 0xae7ab96520de3a18e5e111b5eaab095312d7fe84 "Lido" "stETH"
    ∷ entry 0x7f39c581f595b53c5cb19bd0b3f8da6c935e2ca0 "Lido" "wstETH"
    ∷ []

abbrev eigen_layer_labels : Labels
eigen_layer_labels =
    entry 0x858646372cc42e1a627fce94aa7a7033e7cf075a "EigenLayer" "StrategyManager" ∷ []

abbrev safe_labels : Labels
safe_labels =
    entry 0xca11bde05977b3631167028862be2a173976ca11 "Multicall" "Multicall3"
    ∷ entry 0xd9db270c1b5e3bd161e8c8503c55ceabee709552 "Gnosis Safe" "SafeL2 1.3.0"
    ∷ []

abbrev mev_labels : Labels
mev_labels =
    entry 0xc36442b4a4522e871399cd717abdd847ab11fe88 "Uniswap" "V3 NonfungiblePositionManager"
    ∷ entry 0xdef1c0ded9bec7f1a1670819833240f027b25eff "0x Protocol" "Exchange Proxy"
    ∷ []

abbrev meta_mask_labels : Labels
meta_mask_labels = entry 0x881d40237659c251811cec9c364ef91dc08d300c "MetaMask" "Swap Router" ∷ []

abbrev discovered_labels : Labels
discovered_labels =
    entry 0x502ed02100ea8b10f8d7fc14e0f86633ec2ddada "ERC-20" "Meme Token"
    ∷ entry 0x5ae97e4770b7034c7ca99ab7edc26a18a23cb412 "MEV Bot" "Multi-Token Aggregator"
    ∷ []

-- All of them, in their order.
abbrev pub label_entries : List (Address × ContractLabel)
label_entries =
    uniswap_labels ++ token_labels ++ aave_labels ++ curve_labels ++ one_inch_labels ++ nft_labels
    ++ lido_labels ++ eigen_layer_labels ++ safe_labels ++ mev_labels ++ meta_mask_labels
    ++ discovered_labels

unfoldable pub known_labels : List (Address × ContractLabel)
unfolding insert
known_labels = foldl (λ m e. insert ℕ_discrete e.0 e.1 m) [] label_entries

-- Returns the label for a known contract, if any.
unfoldable pub lookup : Address → Option ContractLabel
unfolding known_labels get
lookup address = get ℕ_discrete address known_labels
